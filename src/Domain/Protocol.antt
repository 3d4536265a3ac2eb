-- ===== src/Domain/Protocol.antt =====
-- internal/core/domain/protocol.go.
use ephemos.Base.{ℕ, Bool, true, false, Option, none, some, List, [], ◌∷◌, if◌then◌else◌}
use ephemos.GoText.{Text, text, text_eq}

-- `Protocol` is an int: protocol_other stands for each that is none of the constants.
pub data Protocol : Type 0 where
  protocol_unknown protocol_tcp protocol_http protocol_https : Protocol
  protocol_grpc protocol_tls protocol_web_socket protocol_other : Protocol

-- `String`.
unfoldable pub protocol_string : Protocol → Text
protocol_string protocol_unknown = text "unknown"
protocol_string protocol_tcp = text "tcp"
protocol_string protocol_http = text "http"
protocol_string protocol_https = text "https"
protocol_string protocol_grpc = text "grpc"
protocol_string protocol_tls = text "tls"
protocol_string protocol_web_socket = text "websocket"
protocol_string protocol_other = text "unknown"

-- The table `stringToProtocol`.
abbrev pub protocol_table : List (Text × Protocol)
protocol_table =
    (text "tcp", protocol_tcp)
    ∷ (text "http", protocol_http)
    ∷ (text "https", protocol_https)
    ∷ (text "grpc", protocol_grpc)
    ∷ (text "tls", protocol_tls)
    ∷ (text "websocket", protocol_web_socket)
    ∷ []

unfoldable pub protocol_in : Text → List (Text × Protocol) → Option Protocol
protocol_in s [] = none
protocol_in s ((t, v) ∷ table) =
    let rest = protocol_in s table in if text_eq t s then some v else rest

-- `ParseProtocol`: none is the error.
unfoldable pub parse_protocol : Text → Option Protocol
parse_protocol s = protocol_in s protocol_table

unfoldable pub protocol_is_valid : Protocol → Bool
protocol_is_valid protocol_unknown = false
protocol_is_valid protocol_other = false
protocol_is_valid p = true

unfoldable pub protocol_is_secure : Protocol → Bool
protocol_is_secure protocol_https = true
protocol_is_secure protocol_tls = true
protocol_is_secure p = false

-- `DefaultPort`, 0 where there is none.
unfoldable pub default_port : Protocol → ℕ
default_port protocol_http = 80
default_port protocol_https = 443
default_port protocol_grpc = 9090
default_port p = 0
