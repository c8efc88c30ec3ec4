-- ===== src/Ingest/Drive/Session/Laws.antt =====
-- src/services/migration-orchestrator.service.ts: what holds of a step whenever it returns.
use mathlib.Core.Path.{subst}
use musanad_contracts_backen.Base.{◌≡◌, Option, none, some, List, ◌∷◌}
use musanad_contracts_backen.Calls.{Units, Outcome, returned, thrown, as_outcome}
use musanad_contracts_backen.Ingest.Drive.Session.{
  Call, Session, Action, pure, ◌>>=◌, ◌>>◌, Answers, perform, follow,
}

pub returned-inj : {A : Type 0} (a b : A) → returned a ≡ returned b → a ≡ b
returned-inj a b h = cc

module _ {N : Type 0} where
  -- Where the step returns, what it returns and the calls that were made satisfy `P`.
  unfoldable pub Ends : {A : Type 0} → Action N A → (A → List (Call N) → Type 0) → Type 0
  Ends {A} m P = (s : Session N) (a : A) → (m s).0 ≡ returned a → P a (m s).1.calls

  follow-Ends :
      {A B : Type 0} (f : A → Action N B) (P : B → List (Call N) → Type 0)
      → ((a : A) → Ends (f a) P)
      → (r : Outcome A) (s : Session N) (b : B) → (follow f (r, s)).0 ≡ returned b
      → P b (follow f (r, s)).1.calls
  unfolding Ends
  follow-Ends f P h (returned a) s b e = h a s b e
  follow-Ends f P h (thrown m) s b e = absurd cc

  pub >>=-Ends :
      {A B : Type 0} (m : Action N A) (f : A → Action N B) (P : B → List (Call N) → Type 0)
      → ((a : A) → Ends (f a) P)
      → Ends (m >>= f) P
  unfolding Ends ◌>>=◌
  >>=-Ends m f P h s b e = follow-Ends f P h (m s).0 (m s).1 b e

  report_outcome :
      {A : Type 0} (P : A → List (Call N) → Type 0) (o : Option Units) (v w : A) (s : Session N)
      → P v s.calls
      → (follow (λ u. pure v) (as_outcome o, s)).0 ≡ returned w
      → P w (follow (λ u. pure v) (as_outcome o, s)).1.calls
  report_outcome P none v w s h e = subst (λ x. P x s.calls) (returned-inj v w e) h
  report_outcome P (some m) v w s h e = absurd cc

  -- A call, and then a value.
  pub report_lem :
      {A : Type 0} (answers : Answers N) (P : A → List (Call N) → Type 0) (c : Call N) (v w : A)
      (s : Session N)
      → P v (c ∷ s.calls)
      → ((perform answers c >> pure v) s).0 ≡ returned w
      → P w ((perform answers c >> pure v) s).1.calls
  unfolding perform ◌>>=◌
  report_lem answers P c v w s h e =
      report_outcome P (answers.run (c ∷ s.calls)) v w (record s { calls = c ∷ s.calls }) h e
