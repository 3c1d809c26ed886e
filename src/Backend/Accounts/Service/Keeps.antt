-- ===== src/Backend/Accounts/Service/Keeps.antt =====
-- backend/app/services/auth_service.py: the calls that leave the denylist alone.
use forex_bot.Common.{◌⊎◌, inl, inr, not, ◌||◌, Option, some, List}
use forex_bot.Common.Cases.{if_case, option_case}
use forex_bot.Common.Text.{Text}
use forex_bot.Backend.Gate.{find, is_some}
use forex_bot.Backend.Accounts.Secrets.{stored_secret}
use forex_bot.Backend.Accounts.Types.{OneTimeToken, Packages, Store, Accounts, Moment, AuthError}
use forex_bot.Backend.Accounts.Service.{
  has_email, is_present, has_hash, Outcome, on_signup, totp_gate, on_login, usable, on_verify_email,
  on_request_password_reset, on_reset_password, on_enroll_totp, on_confirm_totp,
}

pub either_case :
    {A B : Type 0} (Q : A → Type 0) (o : B ⊎ AuthError) (g : AuthError → A) (h : B → A)
    → ((e : AuthError) → Q (g e))
    → ((b : B) → Q (h b))
    → Q (elim o [ inr e ↦ g e | inl b ↦ h b ])
either_case Q (inl b) g h x y = y b
either_case Q (inr e) g h x y = x e

-- What holds of the denylist and the tokens of password resets still holds after a call that does
-- not write to them.
module _ {R : Type 0} (pk : Packages) (st : Store R) (m : Moment) (a : Accounts R)
    (H : R → List OneTimeToken → Type 0) (h : H a.denylist a.reset_tokens) where
  abbrev pub Keeps : Outcome pk st → Type 0
  Keeps o = H o.1.denylist o.1.reset_tokens

  pub signup-Keeps : (email password : Text) → Keeps (on_signup pk st m email password a)
  unfolding on_signup
  signup-Keeps email password =
      if_case Keeps (is_some (find (has_email email) a.users) || not m.is_unique) _ _ (λ e. h)
        (λ e. if_case Keeps m.commits _ _ (λ b. h) (λ b. h))

  pub login-Keeps :
      (email password : Text) (code : Option Text) → Keeps (on_login pk st m email password code a)
  unfolding on_login
  login-Keeps email password code =
      option_case Keeps (find (has_email email) a.users) _ _ (λ e. h)
        (λ u e.
          if_case Keeps (not (pk.verify_password password u.password_hash)) _ _ (λ b. h)
            (λ b.
              option_case Keeps (totp_gate pk st m code u) _ _
                (λ n. if_case Keeps m.commits _ _ (λ b. h) (λ b. h)) (λ x n. h)))

  pub verify-Keeps : (token : Text) → Keeps (on_verify_email pk st m token a)
  unfolding on_verify_email
  verify-Keeps token =
      either_case Keeps (usable pk st m a (find (has_hash (pk.hash_token token)) a.email_tokens)) _
        _ (λ e. h) (λ id. if_case Keeps m.commits _ _ (λ b. h) (λ b. h))

  pub request-Keeps :
      ((rows : List OneTimeToken) → H a.denylist rows)
      → (email : Text) → Keeps (on_request_password_reset pk st m email a)
  unfolding on_request_password_reset
  request-Keeps k email =
      option_case Keeps (find (has_email email) a.users) _ _ (λ e. h)
        (λ u e. if_case Keeps m.commits _ _ (λ b. k _) (λ b. h))

  pub reset-Keeps :
      ((rows : List OneTimeToken) → H a.denylist rows)
      → (token password : Text) → Keeps (on_reset_password pk st m token password a)
  unfolding on_reset_password
  reset-Keeps k token password =
      either_case Keeps (usable pk st m a (find (has_hash (pk.hash_token token)) a.reset_tokens)) _
        _ (λ e. h) (λ id. if_case Keeps m.commits _ _ (λ b. k _) (λ b. h))

  pub enroll-Keeps : (id : Text) → Keeps (on_enroll_totp pk st m id a)
  unfolding on_enroll_totp
  enroll-Keeps id =
      option_case Keeps (find (is_present id) a.users) _ _ (λ e. h)
        (λ u e.
          option_case Keeps (stored_secret pk.aead m.kek m.key_version m.draw u.id m.secret) _ _
            (λ n. h) (λ c n. if_case Keeps m.commits _ _ (λ b. h) (λ b. h)))

  pub confirm-Keeps : (id code : Text) → Keeps (on_confirm_totp pk st m id code a)
  unfolding on_confirm_totp
  confirm-Keeps id code =
      option_case Keeps (find (is_present id) a.users) _ _ (λ e. h)
        (λ u e.
          option_case Keeps u.totp_secret _ _ (λ n. h)
            (λ c n.
              option_case Keeps (totp_gate pk st m (some code) u) _ _
                (λ k. if_case Keeps m.commits _ _ (λ b. h) (λ b. h)) (λ x k. h)))
