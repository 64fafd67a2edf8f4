-- ===== src/Config/Transport.antt =====
-- The names of a transport in src/config.py: `_normalize_local_stt_transport` and
-- `_local_stt_socket_mode`.
use rtc_asr.Prelude.{
  ℕ, Bool, ◌||◌, Option, none, some, List, [], ◌∷◌, ◌++◌, String, ◌==◌, if◌then◌else◌, Result, ok,
  err,
}
use rtc_asr.Text.{Text, codes, text_eq, strip}
use rtc_asr.Text.Words.{words}
use rtc_asr.Config.{Environment, Python, ConfigError, bad_socket_mode, bad_transport, lower, one_of}

-- The aliases, in the order of the source.
abbrev pub aliases : List (String × String)
aliases =
    ("tcp", "tcp_ws")
    ∷ ("tcp_ws", "tcp_ws")
    ∷ ("tcp_websocket", "tcp_ws")
    ∷ ("tcp_websocket_transport", "tcp_ws")
    ∷ ("tcp_web_socket", "tcp_ws")
    ∷ ("tcp_web_socket_transport", "tcp_ws")
    ∷ ("tcp_secure_websocket", "tcp_ws")
    ∷ ("tcp_secure_websocket_transport", "tcp_ws")
    ∷ ("tcp_secure_web_socket", "tcp_ws")
    ∷ ("tcp_secure_web_socket_transport", "tcp_ws")
    ∷ ("tcp_wss", "tcp_ws")
    ∷ ("websocket", "tcp_ws")
    ∷ ("websocket_transport", "tcp_ws")
    ∷ ("web_socket", "tcp_ws")
    ∷ ("web_socket_transport", "tcp_ws")
    ∷ ("ws_tcp", "tcp_ws")
    ∷ ("secure_websocket", "tcp_ws")
    ∷ ("secure_websocket_transport", "tcp_ws")
    ∷ ("secure_web_socket", "tcp_ws")
    ∷ ("secure_web_socket_transport", "tcp_ws")
    ∷ ("websocket_tcp", "tcp_ws")
    ∷ ("websocket_secure", "tcp_ws")
    ∷ ("ws", "tcp_ws")
    ∷ ("wss", "tcp_ws")
    ∷ ("uds", "uds_ws")
    ∷ ("uds_ws", "uds_ws")
    ∷ ("uds_ws_transport", "uds_ws")
    ∷ ("uds_websocket", "uds_ws")
    ∷ ("uds_websocket_transport", "uds_ws")
    ∷ ("uds_web_socket", "uds_ws")
    ∷ ("uds_web_socket_transport", "uds_ws")
    ∷ ("websocket_uds", "uds_ws")
    ∷ ("websocket_unix", "uds_ws")
    ∷ ("websocket_unix_socket", "uds_ws")
    ∷ ("websocket_unix_domain_socket", "uds_ws")
    ∷ ("websocket_unix_domain_socket_transport", "uds_ws")
    ∷ ("ws_uds", "uds_ws")
    ∷ ("ws_unix", "uds_ws")
    ∷ ("ws_unix_socket", "uds_ws")
    ∷ ("unix", "uds_ws")
    ∷ ("unix_domain", "uds_ws")
    ∷ ("unix_ws", "uds_ws")
    ∷ ("unix_websocket", "uds_ws")
    ∷ ("unix_websocket_transport", "uds_ws")
    ∷ ("unix_web_socket", "uds_ws")
    ∷ ("unix_web_socket_transport", "uds_ws")
    ∷ ("unix_socket", "uds_ws")
    ∷ ("unix_socket_transport", "uds_ws")
    ∷ ("unix_domain_socket", "uds_ws")
    ∷ ("unix_domain_socket_transport", "uds_ws")
    ∷ ("unix_domain_ws", "uds_ws")
    ∷ ("unix_domain_websocket", "uds_ws")
    ∷ ("unix_domain_websocket_transport", "uds_ws")
    ∷ ("unix_domain_web_socket", "uds_ws")
    ∷ ("unix_domain_web_socket_transport", "uds_ws")
    ∷ ("unix_socket_ws", "uds_ws")
    ∷ ("unix_socket_websocket", "uds_ws")
    ∷ ("unix_domain_socket_ws", "uds_ws")
    ∷ ("unix_domain_socket_websocket", "uds_ws")
    ∷ ("unix_domain_socket_websocket_transport", "uds_ws")
    ∷ ("unix_domain_socket_web_socket", "uds_ws")
    ∷ ("unix_domain_socket_web_socket_transport", "uds_ws")
    ∷ ("unix_domain_socket_ws_transport", "uds_ws")
    ∷ ("domain_socket", "uds_ws")
    ∷ ("domain_socket_ws", "uds_ws")
    ∷ ("domain_socket_ws_transport", "uds_ws")
    ∷ ("domain_socket_websocket", "uds_ws")
    ∷ ("domain_socket_web_socket", "uds_ws")
    ∷ ("domain_socket_websocket_transport", "uds_ws")
    ∷ ("domain_socket_web_socket_transport", "uds_ws")
    ∷ ("raw", "raw_uds")
    ∷ ("raw_uds", "raw_uds")
    ∷ ("raw_uds_transport", "raw_uds")
    ∷ ("raw_uds_socket", "raw_uds")
    ∷ ("raw_unix_socket", "raw_uds")
    ∷ ("raw_unix_socket_transport", "raw_uds")
    ∷ ("raw_unix", "raw_uds")
    ∷ ("raw_unix_domain", "raw_uds")
    ∷ ("raw_unix_domain_transport", "raw_uds")
    ∷ ("raw_unix_domain_socket", "raw_uds")
    ∷ ("raw_unix_domain_socket_transport", "raw_uds")
    ∷ ("raw_domain_socket", "raw_uds")
    ∷ ("raw_domain_socket_transport", "raw_uds")
    ∷ ("uds_raw", "raw_uds")
    ∷ ("uds_raw_transport", "raw_uds")
    ∷ ("uds_raw_socket", "raw_uds")
    ∷ ("uds_raw_socket_transport", "raw_uds")
    ∷ ("uds_unix", "raw_uds")
    ∷ ("uds_unix_socket", "raw_uds")
    ∷ ("uds_unix_socket_transport", "raw_uds")
    ∷ ("unix_raw", "raw_uds")
    ∷ ("unix_raw_socket", "raw_uds")
    ∷ ("unix_raw_domain", "raw_uds")
    ∷ ("unix_raw_domain_socket", "raw_uds")
    ∷ ("unix_domain_raw", "raw_uds")
    ∷ ("unix_domain_raw_socket", "raw_uds")
    ∷ ("unix_domain_socket_raw", "raw_uds")
    ∷ ("domain_raw", "raw_uds")
    ∷ ("domain_raw_socket", "raw_uds")
    ∷ ("domain_socket_raw", "raw_uds")
    ∷ []

-- `aliases.get(t, t)`
abbrev pub look_up : List (String × String) → Text → Text
look_up [] t = t
look_up ((alias, transport) ∷ rest) t =
    let later = look_up rest t in if text_eq (codes alias) t then codes transport else later

-- Each of `-`, `.`, `:`, `/` and `+` becomes `_`.
abbrev pub is_separator : ℕ → Bool
is_separator c = c == 45 || c == 46 || c == 58 || c == 47 || c == 43

abbrev pub underscored : Text → Text
underscored [] = []
underscored (c ∷ s) = let rest = underscored s in (if is_separator c then 95 else c) ∷ rest

-- `"_".join(ws)`
abbrev pub join_underscored : List Text → Text
join_underscored [] = []
join_underscored (w ∷ []) = w
join_underscored (w ∷ v ∷ ws) = w ++ 95 ∷ join_underscored (v ∷ ws)

unfoldable pub normalize_local_stt_transport : Python → Text → Text
normalize_local_stt_transport py value =
    look_up aliases (join_underscored (words (underscored (lower py (strip value)))))

pub data SocketMode : Type 0 where
  tcp uds : SocketMode

abbrev pub explicit_mode : Text → Result ConfigError SocketMode
explicit_mode normalized =
    if text_eq (codes "tcp_ws") normalized
    then ok tcp
    else if text_eq (codes "uds_ws") normalized
    then ok uds
    else err bad_socket_mode

abbrev pub transport_mode : Text → Result ConfigError SocketMode
transport_mode normalized =
    if text_eq (codes "uds_ws") normalized
    then ok uds
    else if one_of ("" ∷ "tcp_ws" ∷ "raw_uds" ∷ []) normalized
    then ok tcp
    else err bad_transport

-- By `LOCAL_STT_SOCKET_MODE`, else by `LOCAL_STT_TRANSPORT`.
abbrev pub mode_of : Python → Option Text → Option Text → SocketMode → Result ConfigError SocketMode
mode_of py (some mode) transport default = explicit_mode (normalize_local_stt_transport py mode)
mode_of py none (some transport) default =
    transport_mode (normalize_local_stt_transport py transport)
mode_of py none none default = ok default

unfoldable pub local_stt_socket_mode :
    Python → Environment → SocketMode → Result ConfigError SocketMode
local_stt_socket_mode py env default =
    mode_of py (env "LOCAL_STT_SOCKET_MODE") (env "LOCAL_STT_TRANSPORT") default
