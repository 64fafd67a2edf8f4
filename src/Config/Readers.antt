-- ===== src/Config/Readers.antt =====
-- What the readers of environment variables in src/config.py return, and what they blame.
use rtc_asr.Prelude.{
  ℕ, zero, suc, ◌≤◌, ◌<◌, ◌≡◌, refl, Bool, true, false, Option, none, some, List, [], ◌∷◌, String,
  ltb, arith, Result, ok, ◌>>=◌, ◌>>◌, raise_if, if_case, is_some, Ensures, Ensures-bind,
  Ensures-ok, Fails, Fails-ok, Fails-err, Fails-bind, Fails-raise_if,
}
use rtc_asr.Prelude.Int.{ℤ, pos, negsuc}
use rtc_asr.Text.{Text, is_empty, strip, codes, text_eq}
use rtc_asr.Config.{
  Environment, Python, ConfigError, not_positive_integer, not_boolean, not_tcp_port, empty_path,
  bad_socket_mode, bad_transport, one_of, or_else, non_empty, parse_flag, flag_of, env_flag,
  stripped, first_some, first_env, env_text, text_or, lower, sees_devices, default_asr_device,
  positive, int_or, positive_int_env, first_int, positive_int_first_env, tcp_port_env, path_of,
  strip_value, socket_path_env,
}
use rtc_asr.Config.Transport.{
  SocketMode, tcp, uds, mode_of, local_stt_socket_mode, normalize_local_stt_transport,
}

abbrev pub IsNonEmpty : Text → Type 0
IsNonEmpty t = is_empty t ≡ false

-- An error is about a variable that is set.
abbrev pub IsGiven : Environment → String → Type 0
IsGiven env name = is_some (env name) ≡ true

abbrev pub Blames : Environment → ConfigError → Type 0
Blames env (not_positive_integer name) = IsGiven env name
Blames env (not_boolean name) = IsGiven env name
Blames env (not_tcp_port name) = IsGiven env name
Blames env (empty_path name) = IsGiven env name
Blames env bad_socket_mode = IsGiven env "LOCAL_STT_SOCKET_MODE"
Blames env bad_transport = IsGiven env "LOCAL_STT_TRANSPORT"

positive-Ensures : (name : String) (o : Option ℤ) → Ensures (λ n. 0 < n) (positive name o)
positive-Ensures name none = record { at = λ n p. cc }
positive-Ensures name (some (pos zero)) = record { at = λ n p. cc }
positive-Ensures name (some (negsuc n)) = record { at = λ n p. cc }
positive-Ensures name (some (pos (suc n))) = Ensures-ok (suc n) (omega arith)

positive-Fails :
    (env : Environment) (name : String) (o : Option ℤ)
    → IsGiven env name
    → Fails (Blames env) (positive name o)
positive-Fails env name none set = Fails-err (not_positive_integer name) set
positive-Fails env name (some (pos zero)) set = Fails-err (not_positive_integer name) set
positive-Fails env name (some (negsuc n)) set = Fails-err (not_positive_integer name) set
positive-Fails env name (some (pos (suc n))) set = Fails-ok (suc n)

module _ (py : Python) (env : Environment) where
  pub positive_int_env-Ensures :
      (name : String) (default : ℕ) → Ensures (λ n. 0 < n) (positive_int_env py env name default)
  unfolding positive_int_env
  positive_int_env-Ensures name default = positive-Ensures name (int_or py (env name) default)

  default_int-Fails :
      (name : String) (default : ℕ) (o : Option Text)
      → 0 < default
      → env name ≡ o
      → Fails (Blames env) (positive name (int_or py o default))
  default_int-Fails name zero none above e =
      let never : zero ≡ suc zero = omega (arith, above) in cc
  default_int-Fails name (suc n) none above e = Fails-ok (suc n)
  default_int-Fails name default (some value) above e =
      positive-Fails env name (py.parse_int (strip value)) (rw e refl)

  pub positive_int_env-Fails :
      (name : String) (default : ℕ)
      → 0 < default
      → Fails (Blames env) (positive_int_env py env name default)
  unfolding positive_int_env
  positive_int_env-Fails name default above = default_int-Fails name default (env name) above refl

  first_int-Ensures :
      (name : String) (o : Option Text) (next : Result ConfigError ℕ)
      → Ensures (λ n. 0 < n) next
      → Ensures (λ n. 0 < n) (first_int py name o next)
  first_int-Ensures name none next h = h
  first_int-Ensures name (some value) next h = positive-Ensures name (py.parse_int value)

  pub positive_int_first_env-Ensures :
      (names : List String) (default : ℕ)
      → 0 < default
      → Ensures (λ n. 0 < n) (positive_int_first_env py env names default)
  unfolding positive_int_first_env
  positive_int_first_env-Ensures [] default above = Ensures-ok default above
  positive_int_first_env-Ensures (name ∷ names) default above =
      first_int-Ensures name (stripped (env name)) _
        (positive_int_first_env-Ensures names default above)

  set_by : (name : String) (o : Option Text) (t : Text) → stripped o ≡ some t → is_some o ≡ true
  set_by name none t h = cc
  set_by name (some value) t h = refl

  first_int-Fails :
      (name : String) (o : Option Text) (next : Result ConfigError ℕ)
      → stripped (env name) ≡ o
      → Fails (Blames env) next
      → Fails (Blames env) (first_int py name o next)
  first_int-Fails name none next e h = h
  first_int-Fails name (some value) next e h =
      positive-Fails env name (py.parse_int value) (set_by name (env name) value e)

  pub positive_int_first_env-Fails :
      (names : List String) (default : ℕ)
      → Fails (Blames env) (positive_int_first_env py env names default)
  unfolding positive_int_first_env
  positive_int_first_env-Fails [] default = Fails-ok default
  positive_int_first_env-Fails (name ∷ names) default =
      first_int-Fails name (stripped (env name)) _ refl (positive_int_first_env-Fails names default)

  checked-Ensures :
      (name : String) (n : ℕ) (b : Bool)
      → 0 < n
      → (b ≡ false → n ≤ 65535)
      → Ensures (λ m. (0 < m) × (m ≤ 65535)) (raise_if b (not_tcp_port name) >> ok n)
  checked-Ensures name n true above below = record { at = λ m p. cc }
  checked-Ensures name n false above below = Ensures-ok n (above, below refl)

  pub tcp_port_env-Ensures :
      (name : String) (default : ℕ)
      → Ensures (λ n. (0 < n) × (n ≤ 65535)) (tcp_port_env py env name default)
  unfolding tcp_port_env
  tcp_port_env-Ensures name default = Ensures-bind (positive_int_env py env name default) _ λ n e.
      checked-Ensures name n (ltb 65535 n) ((positive_int_env-Ensures name default).at n e)
        (λ h. ground (arith, h))

  checked-Fails :
      (name : String) (n : ℕ) (b : Bool)
      → b ≡ false
      → Fails (Blames env) (raise_if b (not_tcp_port name) >> ok n)
  checked-Fails name n true e = cc
  checked-Fails name n false e = Fails-ok n

  port-Fails :
      (name : String) (default : ℕ) (o : Option Text)
      → 0 < default
      → ltb 65535 default ≡ false
      → env name ≡ o
      → Fails (Blames env) (
          positive name (int_or py o default) >>= λ n.
          raise_if (ltb 65535 n) (not_tcp_port name) >> ok n)
  port-Fails name zero none above below e = let never : zero ≡ suc zero = omega (arith, above) in cc
  port-Fails name (suc n) none above below e = checked-Fails name (suc n) (ltb 65535 (suc n)) below
  port-Fails name default (some value) above below e =
      let set : IsGiven env name = rw e refl in
      Fails-bind (positive name (py.parse_int (strip value))) _
        (positive-Fails env name (py.parse_int (strip value)) set)
        λ n p.
          Fails-bind (raise_if (ltb 65535 n) (not_tcp_port name)) _
            (Fails-raise_if (ltb 65535 n) (not_tcp_port name) set) (λ _ _. Fails-ok n)

  pub tcp_port_env-Fails :
      (name : String) (default : ℕ)
      → 0 < default
      → ltb 65535 default ≡ false
      → Fails (Blames env) (tcp_port_env py env name default)
  unfolding tcp_port_env positive_int_env
  tcp_port_env-Fails name default above below = port-Fails name default (env name) above below refl

  -- A flag.
  parse_flag-Fails :
      (name : String) (value : Text)
      → IsGiven env name
      → Fails (Blames env) (parse_flag py name value)
  parse_flag-Fails name value set =
      if_case (Fails (Blames env))
        (one_of ("1" ∷ "true" ∷ "yes" ∷ "on" ∷ []) (lower py (strip value))) (λ _. Fails-ok true)
        (λ _.
          if_case (Fails (Blames env))
            (one_of ("0" ∷ "false" ∷ "no" ∷ "off" ∷ []) (lower py (strip value)))
            (λ _. Fails-ok false) (λ _. Fails-err (not_boolean name) set))

  flag_of-Fails :
      (name : String) (default : Bool) (o : Option Text)
      → env name ≡ o
      → Fails (Blames env) (flag_of py name o default)
  flag_of-Fails name default none e = Fails-ok default
  flag_of-Fails name default (some value) e = parse_flag-Fails name value (rw e refl)

  pub env_flag-Fails :
      (name : String) (default : Bool) → Fails (Blames env) (env_flag py env name default)
  unfolding env_flag
  env_flag-Fails name default = flag_of-Fails name default (env name) refl

  -- A socket path.
  path_of-Ensures :
      (name : String) (o : Option Text) (default : Text) (required : Bool)
      → IsNonEmpty default
      → Ensures IsNonEmpty (path_of name o default required)
  path_of-Ensures name none default required h = Ensures-ok default h
  path_of-Ensures name (some (c ∷ s)) default required h = Ensures-ok (c ∷ s) refl
  path_of-Ensures name (some []) default true h = record { at = λ p e. cc }
  path_of-Ensures name (some []) default false h = Ensures-ok default h

  pub socket_path_env-Ensures :
      (name : String) (default : Text) (required : Bool)
      → IsNonEmpty default
      → Ensures IsNonEmpty (socket_path_env env name default required)
  unfolding socket_path_env
  socket_path_env-Ensures name default required h =
      path_of-Ensures name (strip_value (env name)) default required h

  strip_value-set : (o : Option Text) (t : Text) → strip_value o ≡ some t → is_some o ≡ true
  strip_value-set none t h = cc
  strip_value-set (some value) t h = refl

  path_of-Fails :
      (name : String) (o : Option Text) (default : Text) (required : Bool)
      → strip_value (env name) ≡ o
      → Fails (Blames env) (path_of name o default required)
  path_of-Fails name none default required e = Fails-ok default
  path_of-Fails name (some (c ∷ s)) default required e = Fails-ok (c ∷ s)
  path_of-Fails name (some []) default true e =
      Fails-err (empty_path name) (strip_value-set (env name) [] e)
  path_of-Fails name (some []) default false e = Fails-ok default

  pub socket_path_env-Fails :
      (name : String) (default : Text) (required : Bool)
      → Fails (Blames env) (socket_path_env env name default required)
  unfolding socket_path_env
  socket_path_env-Fails name default required =
      path_of-Fails name (strip_value (env name)) default required refl

  -- The socket mode.
  mode_of-Fails :
      (o o' : Option Text) (default : SocketMode)
      → env "LOCAL_STT_SOCKET_MODE" ≡ o
      → env "LOCAL_STT_TRANSPORT" ≡ o'
      → Fails (Blames env) (mode_of py o o' default)
  mode_of-Fails (some mode) o' default e e' =
      if_case (Fails (Blames env))
        (text_eq (codes "tcp_ws") (normalize_local_stt_transport py mode)) (λ _. Fails-ok tcp)
        (λ _.
          if_case (Fails (Blames env))
            (text_eq (codes "uds_ws") (normalize_local_stt_transport py mode)) (λ _. Fails-ok uds)
            (λ _. Fails-err bad_socket_mode (rw e refl)))
  mode_of-Fails none (some transport) default e e' =
      if_case (Fails (Blames env))
        (text_eq (codes "uds_ws") (normalize_local_stt_transport py transport)) (λ _. Fails-ok uds)
        (λ _.
          if_case (Fails (Blames env))
            (one_of ("" ∷ "tcp_ws" ∷ "raw_uds" ∷ []) (normalize_local_stt_transport py transport))
            (λ _. Fails-ok tcp) (λ _. Fails-err bad_transport (rw e' refl)))
  mode_of-Fails none none default e e' = Fails-ok default

  pub local_stt_socket_mode-Fails :
      (default : SocketMode) → Fails (Blames env) (local_stt_socket_mode py env default)
  unfolding local_stt_socket_mode
  local_stt_socket_mode-Fails default =
      mode_of-Fails (env "LOCAL_STT_SOCKET_MODE") (env "LOCAL_STT_TRANSPORT") default refl refl

  -- Texts.
  non_empty-IsNonEmpty :
      (t d : Text) → IsNonEmpty d → IsNonEmpty (or_else (first_some (non_empty t) (some d)) d)
  non_empty-IsNonEmpty [] d h = h
  non_empty-IsNonEmpty (c ∷ s) d h = refl

  stripped-IsNonEmpty :
      (o : Option Text) (d : Text)
      → IsNonEmpty d
      → IsNonEmpty (or_else (first_some (stripped o) (some d)) d)
  stripped-IsNonEmpty none d h = h
  stripped-IsNonEmpty (some value) d h = non_empty-IsNonEmpty (strip value) d h

  pub text_or-IsNonEmpty :
      (name : String) (d : Text) → IsNonEmpty d → IsNonEmpty (text_or env name d)
  unfolding env_text
  text_or-IsNonEmpty name d h = stripped-IsNonEmpty (env name) d h

  first_some-IsNonEmpty :
      (o next : Option Text) (d : Text)
      → IsNonEmpty (or_else (stripped o) d)
      → IsNonEmpty (or_else next d)
      → IsNonEmpty (or_else (first_some (stripped o) next) d)
  first_some-IsNonEmpty o next d h h' = go (stripped o) h
    where
      go : (x : Option Text) → IsNonEmpty (or_else x d) → IsNonEmpty (or_else (first_some x next) d)
      go none k = h'
      go (some t) k = k

  stripped_or-IsNonEmpty :
      (o : Option Text) (d : Text) → IsNonEmpty d → IsNonEmpty (or_else (stripped o) d)
  stripped_or-IsNonEmpty none d h = h
  stripped_or-IsNonEmpty (some value) d h = go (strip value)
    where
      go : (t : Text) → IsNonEmpty (or_else (non_empty t) d)
      go [] = h
      go (c ∷ s) = refl

  pub first_env-IsNonEmpty :
      (names : List String) (d : Text) → IsNonEmpty d → IsNonEmpty (or_else (first_env env names) d)
  unfolding first_env
  first_env-IsNonEmpty [] d h = h
  first_env-IsNonEmpty (name ∷ names) d h =
      first_some-IsNonEmpty (env name) (first_env env names) d
        (stripped_or-IsNonEmpty (env name) d h) (first_env-IsNonEmpty names d h)

  pub default_asr_device-IsNonEmpty :
      (d : Text) → IsNonEmpty d → IsNonEmpty (default_asr_device py env d)
  unfolding default_asr_device
  default_asr_device-IsNonEmpty d h = first_env-IsNonEmpty ("ASR_DEVICE" ∷ []) _ (
      if_case IsNonEmpty (sees_devices py (first_env env ("CUDA_VISIBLE_DEVICES" ∷ []))) (λ _. refl)
        (λ _. h))
