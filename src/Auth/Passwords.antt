-- ===== src/Auth/Passwords.antt =====
-- modules/auth/password.service.ts, over argon2.
use ai_search_api.Base.{String, Bool, false, none, some, ◌∷◌}
use ai_search_api.Auth.State.{State, Request, Platform}

module _ (p : Platform) where
  -- A hash that argon2 rejects reads as a wrong password.
  unfoldable pub verify : String → String → State → Bool × State
  verify hashed plain s =
      let s' : State = record s { verified = hashed ∷ s.verified } in
      elim (p.crypto.verify hashed plain) [ none ↦ (false, s') | some b ↦ (b, s') ]

  -- `this.dummyHash ??= await this.hash(randomBytes(16)…)`
  unfoldable pub dummy_of : Request → State → String
  dummy_of req s = elim s.dummy_hash [ none ↦ p.crypto.hash req.random_password | some h ↦ h ]

  unfoldable pub verify_dummy : Request → String → State → Bool × State
  unfolding verify dummy_of
  verify_dummy req plain s =
      (false, (verify (dummy_of req s) plain (record s { dummy_hash = some (dummy_of req s) })).1)
