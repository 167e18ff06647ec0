-- ===== src/Loki/Start/Running.antt =====
-- loki.c: when `loki start` leaves the logging on.
use csh.Prelude.{
  ℕ, ◌+◌, ◌≡◌, ◌↔◌, refl, inl, inr, Bytes, Option, none, some, List, Bool, true, false, ◌&&◌,
  if◌then◌else◌, leb, length, Bool-cases, Option-cases,
}
use csh.Slash.{Status, success, argument}
use csh.Loki.Start.{
  LokiState, LokiArgs, StartAnswers, Secret, fault, refused, secret, set_login, start_curl,
  set_server, read_secret, start_login, loki_start_cmd,
}

-- The status is success exactly if the logging is on behind the command, which does not fault.
abbrev pub Says : Option (Status × LokiState) → Type 0
Says none = Unit {0}
Says (some (status, l)) = (status ≡ success) ↔ (l.running ≡ true)

Says-if :
    (b : Bool) (x y : Option (Status × LokiState))
    → (b ≡ true → Says x)
    → (b ≡ false → Says y)
    → Says (if b then x else y)
Says-if true x y h k = h refl
Says-if false x y h k = k refl

start_curl-Says :
    (a : StartAnswers) (args : LokiArgs) (l : LokiState)
    → l.running ≡ false
    → Says (some (start_curl a args l))
unfolding start_curl
start_curl-Says a args l h = elim (Bool-cases (a.pipe && a.dup2)) [
  | inl e ↦ rw e (λ e. refl, λ e. refl)
  | inr e ↦ rw e (elim (Bool-cases a.curl_easy_init) [
    | inl f ↦ rw f (λ e. cc, λ e. cc)
    | inr f ↦ rw f (λ e. cc, λ e. cc)
  ])
]

start_login-Says :
    (a : StartAnswers) (args : LokiArgs) (s : Secret) (l : LokiState)
    → l.running ≡ false
    → Says (start_login a args s l)
unfolding start_login
start_login-Says a args fault l h = tt
start_login-Says a args refused l h = (λ e. cc, λ e. cc)
start_login-Says a args (secret password) l h =
    elim (Option-cases (set_login a.tmp_username password args)) [
      | inl e ↦ rw (e, Says) (λ e. cc, λ e. cc)
      | inr (args', e) ↦ rw (e, Says) (start_curl-Says a args' l h)
    ]

-- Behind the option parser, `loki start` returns success exactly if it leaves the logging on, whatever the parser,
-- the environment, the files, curl and the system answer, or it faults on the name of the key file.
pub loki_start_cmd-Says :
    (a : StartAnswers) (argi : ℕ) (argv : List Bytes) (l : LokiState)
    → Says (loki_start_cmd a (some argi) argv l)
unfolding loki_start_cmd
loki_start_cmd-Says a argi argv l =
    let args = a.stored l.args in
    Says-if l.running _ _ (λ on. (λ e. on, λ e. refl))
      (λ off.
        Says-if (leb (length argv) (argi + 1)) _ _ (λ e. (λ e. cc, λ e. cc))
          (λ e.
            start_login-Says a (set_server (argument (argi + 1) argv) args) (read_secret a) l off))
