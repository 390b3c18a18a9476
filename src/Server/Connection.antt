-- ===== src/Server/Connection.antt =====
-- `newServerConfig`, `isExpectedHandshakeError` and `handleConn` of internal/server/server.go: one
-- connection, from its accept to its close. What golang.org/x/crypto/ssh answers is an argument: the
-- handshake's result, then the channels that the client opens; what the connection does is a list of
-- effects. The goroutines that it starts are effects too: they run on their own.
pub mod Accounts
use minisshd.Prelude.{
  ℕ, Bool, true, false, not, ◌&&◌, ◌||◌, Option, none, some, List, [], ◌∷◌, ◌++◌, if◌then◌else◌,
  Bytes, codes, ◌=s=◌,
}
use mathlib.Core.Option
use minisshd.Auth.Methods.{Methods, contains, method_password, method_publickey}
use minisshd.Server.Dispatch
use minisshd.Server.Dispatch.{Action, classify_channel}

abbrev pub max_auth_tries : ℕ
max_auth_tries = 6

abbrev pub server_version : Bytes
server_version = codes "SSH-2.0-minisshd"

-- The `ssh.ServerConfig`. The callbacks are those of the type `P` and `Q`; nil is `none`.
pub record ServerConfig {ℓ ℓ' ℓ''} (P : Type ℓ) (Q : Type ℓ') (K : Type ℓ'')
    : Type (ℓ ⊔ ℓ' ⊔ ℓ'') where
  pub no_client_auth : Bool
  pub max_auth_tries : ℕ
  pub server_version : Bytes
  pub password_callback : Option P
  pub public_key_callback : Option Q
  pub host_key : K

-- The methods, the password alone if there are none.
abbrev or_password : Methods → Methods
or_password [] = method_password ∷ []
or_password (m ∷ ms) = m ∷ ms

module _ {ℓ ℓ' ℓ'' ℓs} {P : Type ℓ} {Q : Type ℓ'} {K : Type ℓ''} {S : Type ℓs} where
  unfoldable pub new_server_config : Methods → P → (S → Q) → Option S → K → ServerConfig P Q K
  new_server_config configured by_password by_key source key =
      let methods = or_password configured in
      record {
        no_client_auth = false;
        max_auth_tries = max_auth_tries;
        server_version = server_version;
        password_callback = if contains methods method_password then some by_password else none;
        public_key_callback =
            if contains methods method_publickey then Option.map by_key source else none;
        host_key = key;
      }

-- An error of the handshake: its text, and whether `errors.As` finds a `*ssh.ServerAuthError` in it.
pub record HandshakeError : Type 0 where
  pub text : Bytes
  pub is_auth : Bool

unfoldable pub is_expected_handshake_error : Option HandshakeError → Bool
is_expected_handshake_error none = true
is_expected_handshake_error (some e) =
    e.is_auth || e.text =s= codes "EOF" || e.text =s= codes "unexpected EOF"

-- A channel that the client opens: its type, and the error of `Accept`, if that is called and fails.
pub record NewChannel : Type 0 where
  pub kind : Bytes
  pub accept_error : Option Bytes

pub data Handshake : Type 0 where
  failed : HandshakeError → Handshake
  established : List NewChannel → Handshake

pub data Effect : Type 0 where
  conn_open conn_close : (remote : Bytes) → Effect
  log_error : (message remote : Bytes) → Effect
  classified : Dispatch.Effect → Effect
  serve_requests : (remote : Bytes) → Effect
  start_session : (remote : Bytes) → Effect
  start_forward : (remote : Bytes) → Effect
  cancel_conn close_server_conn close_net : Effect

unfoldable pub all_classified : List Dispatch.Effect → List Effect
all_classified [] = []
all_classified (e ∷ es) = classified e ∷ all_classified es

module _ (remote : Bytes) where
  unfoldable pub serve_action : NewChannel → Action → List Effect
  serve_action c Dispatch.session = elim c.accept_error [
    | some e ↦ log_error (codes "accept channel: " ++ e) remote ∷ []
    | none ↦ start_session remote ∷ []
  ]
  serve_action c Dispatch.forward = start_forward remote ∷ []
  serve_action c Dispatch.rejected = []

  unfoldable pub serve_channel : NewChannel → List Effect
  serve_channel c =
      let (action, es) = classify_channel c.kind remote in
      all_classified es ++ serve_action c action

  -- The loop over the channels.
  unfoldable pub serve_channels : List NewChannel → List Effect
  serve_channels [] = []
  serve_channels (c ∷ cs) = serve_channel c ++ serve_channels cs

  unfoldable pub after_handshake : Handshake → List Effect
  after_handshake (failed e) =
      if is_expected_handshake_error (some e)
      then []
      else log_error (codes "handshake: " ++ e.text) remote ∷ []
  after_handshake (established cs) =
      serve_requests remote ∷ serve_channels cs ++ cancel_conn ∷ close_server_conn ∷ []

  unfoldable pub handle_conn : Handshake → List Effect
  handle_conn h = conn_open remote ∷ after_handshake h ++ close_net ∷ conn_close remote ∷ []
