-- ===== src/Spaceboot/Program/Logs.antt =====
-- spaceboot_slash.c: what an action sends, as a postcondition on its outcome and the events that it adds.
use mathlib.Core.Path.{subst}
use csh.Prelude.{
  ◌≡◌, ◌≢◌, refl, sym, ap, ◌∙◌, List, [], ◌++◌, append-nil, append_assoc, Bool, true, false, Option,
  none, some,
}
use csh.Slash.{Status, success}
use csh.Spaceboot.Flash.{Event}
use csh.Spaceboot.Program.Monad.{
  World, Outcome, done, stop, fault, Action, after, ◌>>=◌, return_if, or_fault, send,
}

-- A command does not return success, neither at its end nor early.
abbrev pub Fails : Outcome Status → Type 0
Fails r = (r ≢ done success) × (r ≢ stop success)

-- The action goes on, and has sent `sent`.
abbrev pub Goes : {A : Type 0} → List Event → Outcome A → List Event → Type 0
Goes sent r es = (es ≡ sent) × (r ≢ fault) × ((s : Status) → r ≢ stop s)

module _ {L : Type 0} where
  -- `m` only adds events, and `P` holds of its outcome and those.
  abbrev pub Logs : {A : Type 0} → Action L A → (Outcome A → List Event → Type 0) → Type 0
  Logs m P = (w : World L) → (es : List Event) × ((m w).1.events ≡ w.events ++ es) × P (m w).0 es

  pub Logs-bind :
      {A B : Type 0} (P : Outcome A → List Event → Type 0) (R : Outcome B → List Event → Type 0)
      (m : Action L A) (f : A → Action L B)
      → Logs m P
      → ((a : A) (es : List Event) → P (done a) es → Logs (f a) (λ r es'. R r (es ++ es')))
      → ((s : Status) (es : List Event) → P (stop s) es → R (stop s) es)
      → ((es : List Event) → P fault es → R fault es)
      → Logs (m >>= f) R
  unfolding ◌>>=◌
  Logs-bind P R m f hm hf hs hx w =
      let (es, e, p) = hm w in
      let w' = (m w).1 in
      elim (m w).0
          as (λ r.
            P r es
            → (out : List Event) × ((after f r w').1.events ≡ w.events ++ out)
              × R (after f r w').0 out) [
                | done a ↦ λ p'.
                    let (es', e', r) = hf a es p' w' in
                    (
                      es ++ es',
                      e' ∙ (ap (λ (l : List Event). l ++ es') e ∙ append_assoc w.events es es'),
                      r,
                    )
                | stop s ↦ λ p'. (es, e, hs s es p')
                | fault ↦ λ p'. (es, e, hx es p')
              ]
        p

  -- `m` sends nothing, and does not return early with success.
  abbrev pub Quiet : {A : Type 0} → Action L A → Type 0
  Quiet m = (w : World L) → ((m w).1.events ≡ w.events) × ((m w).0 ≢ stop success)

  pub Quiet-bind :
      {A B : Type 0} (m : Action L A) (f : A → Action L B)
      → Quiet m
      → ((a : A) → Quiet (f a))
      → Quiet (m >>= f)
  unfolding ◌>>=◌
  Quiet-bind m f hm hf w =
      let w' = (m w).1 in
      elim (m w).0
          as (λ r.
            r ≢ stop success
            → ((after f r w').1.events ≡ w.events) × ((after f r w').0 ≢ stop success)) [
              | done a ↦ λ _. ((hf a w').0 ∙ (hm w).0, (hf a w').1)
              | stop s ↦ λ n. ((hm w).0, λ e. n (cc))
              | fault ↦ λ n. ((hm w).0, λ e. cc)
            ]
        (hm w).1

  pub Quiet-return_if : (c : Bool) (s : Status) → s ≢ success → Quiet (return_if c s)
  Quiet-return_if true s n w = (refl, λ e. n (cc))
  Quiet-return_if false s n w = (refl, λ e. cc)

  pub Quiet-or_fault : {A : Type 0} (o : Option A) → Quiet (or_fault o)
  Quiet-or_fault none w = (refl, λ e. cc)
  Quiet-or_fault (some a) w = (refl, λ e. cc)

  -- A quiet action, in front of others.
  pub Logs-quiet :
      {A B : Type 0} (R : Outcome B → List Event → Type 0) (m : Action L A) (f : A → Action L B)
      → Quiet m
      → ((a : A) → Logs (f a) R)
      → ((s : Status) → s ≢ success → R (stop s) [])
      → R fault []
      → Logs (m >>= f) R
  Logs-quiet R m f hm hf hs hx =
      Logs-bind (λ r es. (es ≡ []) × (r ≢ stop success)) R m f
        (λ w. ([], (hm w).0 ∙ sym (append-nil w.events), (refl, (hm w).1)))
        (λ a es p. subst (λ es. Logs (f a) (λ r es'. R r (es ++ es'))) (sym (p.0)) (hf a))
        (λ s es p. subst (λ es. R (stop s) es) (sym (p.0)) (hs s (λ e. p.1 (ap stop e))))
        (λ es p. subst (λ es. R fault es) (sym (p.0)) hx)

  pub Logs-goes :
      {A B : Type 0} (R : Outcome B → List Event → Type 0) (sent : List Event) (m : Action L A)
      (f : A → Action L B)
      → Logs m (Goes sent)
      → ((a : A) → Logs (f a) (λ r es. R r (sent ++ es)))
      → Logs (m >>= f) R
  Logs-goes R sent m f hm hf =
      Logs-bind (Goes sent) R m f hm
        (λ a es p. subst (λ es. Logs (f a) (λ r es'. R r (es ++ es'))) (sym (p.0)) (hf a))
        (λ s es p. absurd (p.2 s refl)) (λ es p. absurd (p.1 refl))

  pub Logs-weaken :
      {A : Type 0} (P R : Outcome A → List Event → Type 0) (m : Action L A)
      → Logs m P
      → ((r : Outcome A) (es : List Event) → P r es → R r es)
      → Logs m R
  Logs-weaken P R m hm h w = let (es, e, p) = hm w in (es, e, h (m w).0 es p)

  -- An early return, with its test.
  pub Logs-return_if :
      {B : Type 0} (R : Outcome B → List Event → Type 0) (c : Bool) (s : Status)
      (f : Unit {0} → Action L B)
      → (c ≡ true → R (stop s) [])
      → (c ≡ false → Logs (f tt) R)
      → Logs (return_if c s >>= f) R
  unfolding ◌>>=◌
  Logs-return_if R true s f ht hf w = ([], sym (append-nil w.events), ht refl)
  Logs-return_if R false s f ht hf w = hf refl w

  -- A quiet action, alone.
  pub Logs-last :
      {A : Type 0} (R : Outcome A → List Event → Type 0) (m : Action L A)
      → ((w : World L) → (m w).1.events ≡ w.events)
      → ((w : World L) → R (m w).0 [])
      → Logs m R
  Logs-last R m hm hr w = ([], hm w ∙ sym (append-nil w.events), hr w)

  -- What `m` sends in front of what `f` sends.
  pub Logs-send :
      {B : Type 0} (R : Outcome B → List Event → Type 0) (es : List Event)
      (f : Unit {0} → Action L B)
      → Logs (f tt) (λ r es'. R r (es ++ es'))
      → Logs (send es >>= f) R
  unfolding ◌>>=◌
  Logs-send R es f hf w =
      let (es', e, r) = hf (record w { events = w.events ++ es }) in
      (es ++ es', e ∙ append_assoc w.events es es', r)
