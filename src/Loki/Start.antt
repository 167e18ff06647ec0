-- ===== src/Loki/Start.antt =====
-- loki.c: `loki start`. The option parser, the environment, files, curl, the pipe and the allocations are
-- arguments; the first `char` of a key file's name is read also where the name is empty.
pub mod Running
use csh.Prelude.{
  ℕ, ◌-◌, ◌+◌, Bytes, codes, Option, none, some, List, [], ◌∷◌, ◌++◌, Bool, true, false, ◌&&◌, not,
  if◌then◌else◌, ◌==◌, ltb, leb, length, take, get_or,
}
use csh.Prelude.Int.{ℤ, pos, eq_ℤ}
use csh.Libc.{format_d}
use csh.Slash.{Status, success, einval, argument}
use csh.SlashUtils.{is_http_url}

-- `args`, which outlives the command
pub record LokiArgs : Type 0 where
  pub use_ssl : Bool
  pub port : ℤ
  pub skip_verify : Bool
  pub verbose : Bool
  pub username : Option Bytes
  pub password : Option Bytes
  pub server_ip : Option Bytes
  pub api_root : Option Bytes

-- what curl is told
pub record Curl : Type 0 where
  pub url : Bytes
  pub verifies : Bool
  pub login : Option (Bytes × Bytes)

pub record LokiState : Type 0 where
  pub running : Bool
  pub args : LokiArgs
  pub protocol_s : Bool
  pub curl : Option Curl
  pub queue_created : Bool

-- What the parser stored in its variables, and what the system answers.
pub record StartAnswers : Type 0 where
  pub stored : LokiArgs → LokiArgs
  pub tmp_username : Option Bytes
  pub tmp_password : Option Bytes
  pub key_file : Option Bytes
  pub home : Option Bytes
  pub read_file : Bytes → Option Bytes
  pub allocates : Bool
  pub curl_easy_init : Bool
  pub pipe : Bool
  pub dup2 : Bool

-- `key_file_local`; none without a home, or for a name that does not fit its 256 bytes
unfoldable pub key_file_local : Option Bytes → Bytes → Option Bytes
key_file_local home [] = some []
key_file_local home (c ∷ name) =
    let path : Option Bytes =
      if c == b'~'
      then elim home [ none ↦ none | some h ↦ some (h ++ name) ]
      else some (c ∷ name) in
    elim path [ none ↦ none | some p ↦ if ltb (length p) 256 then some p else none ]

-- the text up to its newline
unfoldable pub first_line : Bytes → Bytes
first_line [] = []
first_line (c ∷ text) = let rest = first_line text in if c == 10 then [] else c ∷ rest

-- The password, from the key file if there is one: a fault, an early return, or its value.
pub data Secret : Type 0 where
  fault : Secret
  refused : Secret
  secret : Option Bytes → Secret

unfoldable pub read_secret : StartAnswers → Secret
unfolding key_file_local first_line
read_secret a = elim a.key_file [
  | none ↦ secret (a.tmp_password)
  | some name ↦ elim (key_file_local a.home name) [
    | none ↦ fault
    | some path ↦ elim (a.read_file path) [
      | none ↦ refused
      | some [] ↦ refused
      | some (c ∷ text) ↦
          if a.allocates then secret (some (first_line (take 1023 (c ∷ text)))) else refused
    ]
  ]
]

abbrev pub default_port : ℤ → ℤ
default_port port = if eq_ℤ port (pos 0) then pos 3100 else port

-- the user and the port; none for a user without a password
unfoldable pub set_login : Option Bytes → Option Bytes → LokiArgs → Option LokiArgs
set_login none tmp_password args = some (record args { port = default_port args.port })
set_login (some user) none args = none
set_login (some user) (some password) args =
    some (record args {
      username = some user;
      password = some password;
      port = default_port args.port;
    })

abbrev pub or_null : Option Bytes → Bytes
or_null none = codes "(null)"
or_null (some text) = text

-- `url`, in its 256 bytes
unfoldable pub push_url : Bool → LokiArgs → Bytes
push_url protocol_s args = take 255 (elim args.api_root [
  | none ↦
      (if protocol_s then codes "https" else codes "http")
      ++ (codes "://"
          ++ (or_null args.server_ip
              ++ (codes ":" ++ (format_d args.port ++ codes "/loki/api/v1/push"))))
  | some root ↦
      if get_or root (length root - 1) 0 == b'/'
      then root ++ codes "loki/api/v1/push"
      else root ++ codes "/loki/api/v1/push"
])

unfoldable pub login_of : LokiArgs → Option (Bytes × Bytes)
login_of args = elim args.username [
  | none ↦ none
  | some user ↦ elim args.password [ none ↦ none | some password ↦ some (user, password) ]
]

-- from `curl_easy_init` on
unfoldable pub start_curl : StartAnswers → LokiArgs → LokiState → Status × LokiState
unfolding push_url login_of
start_curl a args l =
    let protocol_s = if args.use_ssl then true else l.protocol_s in
    let curl : Option Curl =
      if a.curl_easy_init
      then some (record {
        url = push_url protocol_s args;
        verifies = not args.skip_verify;
        login = login_of args;
      })
      else none in
    let l' = record l { args = args; protocol_s = protocol_s; curl = curl } in
    if a.pipe && a.dup2
    then (success, record l' { queue_created = true; running = true })
    else (einval, record l' { running = if a.curl_easy_init then l.running else false })

-- the server, or the root if the argument is an URL
unfoldable pub set_server : Bytes → LokiArgs → LokiArgs
unfolding is_http_url
set_server server args =
    if is_http_url (some server)
    then record args { api_root = some server; server_ip = none }
    else record args { api_root = none; server_ip = some server }

-- from the password on; none for a fault
unfoldable pub start_login :
    StartAnswers → LokiArgs → Secret → LokiState → Option (Status × LokiState)
unfolding set_login start_curl
start_login a args fault l = none
start_login a args refused l = some (einval, record l { args = args })
start_login a args (secret password) l = elim (set_login a.tmp_username password args) [
  | none ↦ some (einval, record l { args = args })
  | some args' ↦ some (start_curl a args' l)
]

unfoldable pub loki_start_cmd :
    StartAnswers → Option ℕ → List Bytes → LokiState → Option (Status × LokiState)
unfolding set_server read_secret start_login
loki_start_cmd a none argv l = some (einval, record l { args = a.stored l.args })
loki_start_cmd a (some argi) argv l =
    let args = a.stored l.args in
    if l.running
    then some (success, record l { args = args })
    else if leb (length argv) (argi + 1)
    then some (einval, record l { args = args })
    else start_login a (set_server (argument (argi + 1) argv) args) (read_secret a) l
