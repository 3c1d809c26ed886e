-- ===== src/Backend/Accounts/Service/Login.antt =====
-- backend/app/services/auth_service.py: who can log in.
use forex_bot.Common.{◌≡◌, ◌↔◌, ◌⊎◌, inl, inr, refl, ap, Bool, true, false, not, Option, none, some}
use forex_bot.Common.Cases.{if_case, option_case}
use forex_bot.Common.Text.{Text}
use forex_bot.Backend.Gate.{find}
use forex_bot.Backend.Accounts.Blob.{Bytes}
use forex_bot.Backend.Accounts.Secrets.{read_secret}
use forex_bot.Backend.Accounts.StepUp.{verify_totp}
use forex_bot.Backend.Accounts.Types.{
  User, Packages, Store, Accounts, Moment, AuthError, mfa_invalid, server_error, issued,
}
use forex_bot.Backend.Accounts.Service.{has_email, Outcome, totp_gate, on_login}

issued_inj : (x y : Text) → issued x ≡ issued y → x ≡ y
issued_inj x y e = cc

of_not : (b : Bool) → not b ≡ false → b ≡ true
of_not true h = refl
of_not false h = cc

module _ {R : Type 0} (pk : Packages) (st : Store R) where
  -- No second factor is enrolled, or the code of the request verifies against the stored secret.
  abbrev pub SecondFactor : Moment → Option Text → User → Type 0
  SecondFactor m code u =
      (u.totp_secret ≡ none)
      ⊎ ((column : Bytes) × (k : Text) × (secret : Text) × (u.totp_secret ≡ some column)
          × (code ≡ some k)
          × (read_secret pk.aead m.kek u.id column ≡ some secret)
          × (verify_totp pk.pyotp secret k m.now ≡ some true))

  checked :
      (o : Option Bool)
      → elim o [ some true ↦ none | some false ↦ some mfa_invalid | none ↦ some server_error ]
        ≡ none
      → o ≡ some true
  checked none h = cc
  checked (some true) h = refl
  checked (some false) h = cc

  gate_lets :
      (m : Moment) (code : Option Text) (u : User)
      → totp_gate pk st m code u ≡ none
      → SecondFactor m code u
  unfolding totp_gate
  gate_lets m code u =
      let Q = λ (o : Option AuthError). o ≡ none → SecondFactor m code u in
      option_case Q u.totp_secret _ _ (λ e h. inl e)
        (λ column e.
          option_case Q code _ _ (λ n h. cc)
            (λ k n.
              option_case Q (read_secret pk.aead m.kek u.id column) _ _ (λ x h. cc)
                (λ secret x h. inr (column, k, secret, e, n, x, checked _ h))))

  lets_gate :
      (m : Moment) (code : Option Text) (u : User)
      → SecondFactor m code u
      → totp_gate pk st m code u ≡ none
  unfolding totp_gate
  lets_gate m code u (inl e) = rw (e, totp_gate)
  lets_gate m code u (inr (column, k, secret, e, n, x, v)) = rw (e, n, x, v, totp_gate)

  -- A login issues tokens for a user exactly if the user is found by the email, whatever its letters'
  -- case, and not deleted, the password verifies against the stored hash, no second factor is
  -- enrolled or the code verifies against the secret that is read in the column, and the transaction
  -- commits.
  pub login_iff :
      (m : Moment) (email password : Text) (code : Option Text) (a : Accounts R) (id : Text)
      → ((on_login pk st m email password code a).0 ≡ issued id) ↔ (
          (u : User) × (find (has_email email) a.users ≡ some u)
          × (u.id ≡ id)
          × (pk.verify_password password u.password_hash ≡ true)
          × SecondFactor m code u
          × (m.commits ≡ true))
  unfolding on_login
  login_iff m email password code a id =
      let G =
        (u : User) × (find (has_email email) a.users ≡ some u)
        × (u.id ≡ id)
        × (pk.verify_password password u.password_hash ≡ true)
        × SecondFactor m code u
        × (m.commits ≡ true) in
      let Q = λ (o : Outcome pk st). o.0 ≡ issued id → G in
      (
        option_case Q (find (has_email email) a.users) _ _ (λ e h. cc)
            (λ u e.
              if_case Q (not (pk.verify_password password u.password_hash)) _ _ (λ b h. cc)
                (λ b.
                  option_case Q (totp_gate pk st m code u) _ _
                    (λ n.
                      if_case Q m.commits _ _
                        (λ c h. (u, e, issued_inj _ _ h, of_not _ b, gate_lets m code u n, c))
                        (λ c h. cc))
                    (λ x n h. cc))),
        λ (u, e, i, v, s, c). rw (e, v, lets_gate m code u s, c, on_login) (ap issued i),
      )
