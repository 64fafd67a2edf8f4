-- ===== src/Config.antt =====
-- How src/config.py reads the environment: the helpers for flags, texts, numbers, ports and socket
-- paths. `os.getenv` is a function of the name; `int` and `str(Path(...))` are parameters.
pub mod Transport
pub mod Load
pub mod Readers
pub mod Validity
pub mod Blame
mod Tests
use rtc_asr.Prelude.{
  ℕ, zero, suc, Bool, true, false, not, ◌&&◌, ◌||◌, Option, none, some, List, [], ◌∷◌, map, String,
  ltb, ◌==◌, if◌then◌else◌, Result, ok, err, ◌>>=◌, ◌>>◌, raise_if,
}
use rtc_asr.Prelude.Int.{ℤ, pos, negsuc}
use rtc_asr.Text.{Text, Unicode, codes, text_eq, is_empty, strip, fold_case}

abbrev pub Environment : Type 0
Environment = String → Option Text

-- `int(text)`, nothing where it raises ValueError, `str(Path(text))`, and the case tables.
pub record Python : Type 0 where
  pub unicode : Unicode
  pub parse_int : Text → Option ℤ
  pub str_path : Text → Text

-- The messages of `ValueError`, most with the variable's name.
pub data ConfigError : Type 0 where
  not_positive_integer not_boolean not_tcp_port empty_path : String → ConfigError
  bad_socket_mode bad_transport : ConfigError

-- `text in {...}`
abbrev pub one_of : List String → Text → Bool
one_of [] t = false
one_of (s ∷ names) t = text_eq (codes s) t || one_of names t

-- `text.lower()`
abbrev pub lower : Python → Text → Text
lower py t = fold_case py.unicode.lower t

abbrev pub or_else {ℓ} : {A : Type ℓ} → Option A → A → A
or_else none default = default
or_else (some a) default = a

-- `text or None`, `text or default`
abbrev pub non_empty : Text → Option Text
non_empty [] = none
non_empty (c ∷ s) = some (c ∷ s)

-- `value.split(",")`, for one separator.
abbrev pub put_first : ℕ → List Text → List Text
put_first c [] = (c ∷ []) ∷ []
put_first c (w ∷ ws) = (c ∷ w) ∷ ws

abbrev pub split_on : ℕ → Text → List Text
split_on sep [] = [] ∷ []
split_on sep (c ∷ s) = let rest = split_on sep s in if c == sep then [] ∷ rest else put_first c rest

-- The stripped parts that are not empty.
abbrev pub kept_parts : List Text → List Text
kept_parts [] = []
kept_parts (w ∷ ws) =
    let rest = kept_parts ws in if is_empty (strip w) then rest else strip w ∷ rest

abbrev pub or_default {ℓ} : {A : Type ℓ} → List A → List A → List A
or_default [] default = default
or_default (x ∷ xs) default = x ∷ xs

unfoldable pub cors_origins : Option Text → List Text → List Text
cors_origins none default = default
cors_origins (some value) default = or_default (kept_parts (split_on 44 value)) default

abbrev pub parse_flag : Python → String → Text → Result ConfigError Bool
parse_flag py name value =
    let normalized = lower py (strip value) in
    if one_of ("1" ∷ "true" ∷ "yes" ∷ "on" ∷ []) normalized
    then ok true
    else if one_of ("0" ∷ "false" ∷ "no" ∷ "off" ∷ []) normalized
    then ok false
    else err (not_boolean name)

abbrev pub flag_of : Python → String → Option Text → Bool → Result ConfigError Bool
flag_of py name none default = ok default
flag_of py name (some value) default = parse_flag py name value

unfoldable pub env_flag : Python → Environment → String → Bool → Result ConfigError Bool
env_flag py env name default = flag_of py name (env name) default

abbrev pub stripped : Option Text → Option Text
stripped none = none
stripped (some value) = non_empty (strip value)

abbrev pub first_some {ℓ} : {A : Type ℓ} → Option A → Option A → Option A
first_some none next = next
first_some (some a) next = some a

unfoldable pub first_env : Environment → List String → Option Text
first_env env [] = none
first_env env (name ∷ names) = first_some (stripped (env name)) (first_env env names)

-- `_env_text`, with `None` as a default too.
unfoldable pub env_text : Environment → String → Option Text → Option Text
env_text env name default = first_some (stripped (env name)) default

-- `_env_text(name, default) or default`
abbrev pub text_or : Environment → String → Text → Text
text_or env name default = or_else (env_text env name (some default)) default

unfoldable pub env_lower_text : Python → Environment → String → Text → Text
env_lower_text py env name default = lower py (text_or env name default)

-- Whether `CUDA_VISIBLE_DEVICES` names a device.
abbrev pub sees_devices : Python → Option Text → Bool
sees_devices py none = false
sees_devices py (some devices) = not (one_of ("" ∷ "-1" ∷ "none" ∷ []) (lower py (strip devices)))

unfoldable pub default_asr_device : Python → Environment → Text → Text
default_asr_device py env default =
    let visible = sees_devices py (first_env env ("CUDA_VISIBLE_DEVICES" ∷ [])) in
    or_else (first_env env ("ASR_DEVICE" ∷ [])) (if visible then codes "cuda" else default)

abbrev pub positive : String → Option ℤ → Result ConfigError ℕ
positive name (some (pos (suc n))) = ok (suc n)
positive name (some (pos zero)) = err (not_positive_integer name)
positive name (some (negsuc n)) = err (not_positive_integer name)
positive name none = err (not_positive_integer name)

-- `int(str(default))` is the default.
abbrev pub int_or : Python → Option Text → ℕ → Option ℤ
int_or py none default = some (pos default)
int_or py (some value) default = py.parse_int (strip value)

unfoldable pub positive_int_env : Python → Environment → String → ℕ → Result ConfigError ℕ
positive_int_env py env name default = positive name (int_or py (env name) default)

abbrev pub first_int : Python → String → Option Text → Result ConfigError ℕ → Result ConfigError ℕ
first_int py name none next = next
first_int py name (some value) next = positive name (py.parse_int value)

unfoldable pub positive_int_first_env :
    Python → Environment → List String → ℕ → Result ConfigError ℕ
positive_int_first_env py env [] default = ok default
positive_int_first_env py env (name ∷ names) default =
    first_int py name (stripped (env name)) (positive_int_first_env py env names default)

unfoldable pub tcp_port_env : Python → Environment → String → ℕ → Result ConfigError ℕ
tcp_port_env py env name default = do
  value ← positive_int_env py env name default
  raise_if (ltb 65535 value) (not_tcp_port name) >> ok value

abbrev pub path_of : String → Option Text → Text → Bool → Result ConfigError Text
path_of name none default required = ok default
path_of name (some (c ∷ s)) default required = ok (c ∷ s)
path_of name (some []) default true = err (empty_path name)
path_of name (some []) default false = ok default

abbrev pub strip_value : Option Text → Option Text
strip_value none = none
strip_value (some value) = some (strip value)

unfoldable pub socket_path_env : Environment → String → Text → Bool → Result ConfigError Text
socket_path_env env name default required = path_of name (strip_value (env name)) default required
