-- ===== src/Backend/Accounts/Service/OneTime.antt =====
-- backend/app/services/auth_service.py: a link to reset a password works once.
use forex_bot.Common.{
  ℕ, ◌≤◌, ◌≡◌, refl, sym, ap, ◌∙◌, ◌⊎◌, inl, inr, true, false, Option, none, some, List, [], ◌∷◌,
  ◌++◌, ltb, arith,
}
use forex_bot.Common.Cases.{if_case, option_case}
use forex_bot.Common.Text.{Text, codes}
use forex_bot.Backend.Gate.{find, is_some, is_none}
use forex_bot.Backend.Accounts.Blob.{Bytes}
use forex_bot.Backend.Accounts.Types.{
  User, OneTimeToken, Packages, Store, Accounts, Moment, AuthError, link_invalid, accepted, refused,
  Call, signup, login, refresh, logout, verify_email, request_password_reset, reset_password,
  enroll_totp, confirm_totp,
}
use forex_bot.Backend.Accounts.Service.{
  has_email, is_present, has_hash, change_user, use_token, Outcome, decode_token, is_revoked,
  rotate, on_refresh, on_logout, usable, on_request_password_reset, on_reset_password,
  with_password, serve, serve_all,
}
use forex_bot.Backend.Accounts.Service.Keeps.{
  either_case, signup-Keeps, login-Keeps, verify-Keeps, enroll-Keeps, confirm-Keeps,
}

abbrev Used : Option OneTimeToken → Type 0
Used none = ⊥
Used (some t) = is_some t.used_at ≡ true

-- The row that is found by the digest was used.
abbrev UsedUp : Bytes → List OneTimeToken → Type 0
UsedUp digest rows = Used (find (has_hash digest) rows)

UsedUp-append :
    (digest : Bytes) (rows more : List OneTimeToken)
    → UsedUp digest rows
    → UsedUp digest (rows ++ more)
unfolding find
UsedUp-append digest [] more u = elim u [ ]
UsedUp-append digest (t ∷ rows) more u = ground (arith, UsedUp-append digest rows more)

UsedUp-use :
    (digest other : Bytes) (now : ℕ) (rows : List OneTimeToken)
    → UsedUp digest rows
    → UsedUp digest (use_token other now rows)
unfolding find use_token
UsedUp-use digest other now [] u = u
UsedUp-use digest other now (t ∷ rows) u = ground (arith, UsedUp-use digest other now rows)

use-UsedUp :
    (digest : Bytes) (now : ℕ) (rows : List OneTimeToken) (t : OneTimeToken)
    → find (has_hash digest) rows ≡ some t
    → UsedUp digest (use_token digest now rows)
unfolding find use_token
use-UsedUp digest now [] t e = cc
use-UsedUp digest now (s ∷ rows) t e = ground (arith, use-UsedUp digest now rows t)

module _ {R : Type 0} (pk : Packages) (st : Store R) (digest : Bytes) where
  abbrev Done : Outcome pk st → Type 0
  Done o = UsedUp digest o.1.reset_tokens

  refresh-Done :
      (m : Moment) (token : Text) (a : Accounts R)
      → UsedUp digest a.reset_tokens
      → Done (on_refresh pk st m token a)
  unfolding on_refresh rotate
  refresh-Done m token a u =
      option_case Done (decode_token pk st (codes "refresh") token m.now) _ _ (λ e. u)
        (λ c e.
          if_case Done (is_revoked pk st m c.jti a.denylist) _ _ (λ b. u)
            (λ b.
              option_case Done c.sub _ _ (λ e. u)
                (λ id e. option_case Done (find (is_present id) a.users) _ _ (λ n. u) (λ x n. u))))

  logout-Done :
      (m : Moment) (token : Option Text) (a : Accounts R)
      → UsedUp digest a.reset_tokens
      → Done (on_logout pk st m token a)
  unfolding on_logout
  logout-Done m none a u = u
  logout-Done m (some token) a u =
      option_case Done (decode_token pk st (codes "refresh") token m.now) _ _ (λ e. u) (λ c e. u)

  request-Done :
      (m : Moment) (email : Text) (a : Accounts R)
      → UsedUp digest a.reset_tokens
      → Done (on_request_password_reset pk st m email a)
  unfolding on_request_password_reset
  request-Done m email a u =
      option_case Done (find (has_email email) a.users) _ _ (λ e. u)
        (λ x e. if_case Done m.commits _ _ (λ b. UsedUp-append digest a.reset_tokens _ u) (λ b. u))

  reset-Done :
      (m : Moment) (token password : Text) (a : Accounts R)
      → UsedUp digest a.reset_tokens
      → Done (on_reset_password pk st m token password a)
  unfolding on_reset_password
  reset-Done m token password a u =
      either_case Done (usable pk st m a (find (has_hash (pk.hash_token token)) a.reset_tokens)) _ _
        (λ e. u)
        (λ id.
          if_case Done m.commits _ _
            (λ b. UsedUp-use digest (pk.hash_token token) m.now a.reset_tokens u) (λ b. u))

  serve-Done :
      (m : Moment) (c : Call) (a : Accounts R)
      → UsedUp digest a.reset_tokens
      → Done (serve pk st m c a)
  unfolding serve
  serve-Done m (signup email password) a u =
      signup-Keeps pk st m a (λ _ rows. UsedUp digest rows) u email password
  serve-Done m (login email password code) a u =
      login-Keeps pk st m a (λ _ rows. UsedUp digest rows) u email password code
  serve-Done m (refresh token) a u = refresh-Done m token a u
  serve-Done m (logout token) a u = logout-Done m token a u
  serve-Done m (verify_email token) a u =
      verify-Keeps pk st m a (λ _ rows. UsedUp digest rows) u token
  serve-Done m (request_password_reset email) a u = request-Done m email a u
  serve-Done m (reset_password token password) a u = reset-Done m token password a u
  serve-Done m (enroll_totp id) a u = enroll-Keeps pk st m a (λ _ rows. UsedUp digest rows) u id
  serve-Done m (confirm_totp id code) a u =
      confirm-Keeps pk st m a (λ _ rows. UsedUp digest rows) u id code

  all-Done :
      (cs : List (Moment × Call)) (a : Accounts R)
      → UsedUp digest a.reset_tokens
      → UsedUp digest (serve_all pk st cs a).reset_tokens
  unfolding serve_all
  all-Done [] a u = u
  all-Done ((m, c) ∷ cs) a u = all-Done cs (serve pk st m c a).1 (serve-Done m c a u)

  refused_again :
      (m : Moment) (a : Accounts R) (o : Option OneTimeToken)
      → Used o
      → usable pk st m a o ≡ inr link_invalid
  unfolding usable
  refused_again m a none u = elim u [ ]
  refused_again m a (some t) u = ground arith

there : {A : Type 0} (o : Option A) → is_none o ≡ false → (x : A) × (o ≡ some x)
there none h = cc
there (some x) h = (x, refl)

inl_inj : (x y : Text) → ◌≡◌ {A = Text ⊎ AuthError} (inl x) (inl y) → x ≡ y
inl_inj x y e = cc

inr_inj : (x y : AuthError) → ◌≡◌ {A = Text ⊎ AuthError} (inr x) (inr y) → x ≡ y
inr_inj x y e = cc

not_both : (x : Text) (y : AuthError) → ◌≡◌ {A = Text ⊎ AuthError} (inl x) (inr y) → ⊥
not_both x y e = cc

either_cases :
    {A B : Type 0} (Q : A → Type 0) (o : B ⊎ AuthError) (g : AuthError → A) (h : B → A)
    → ((e : AuthError) → o ≡ inr e → Q (g e))
    → ((b : B) → o ≡ inl b → Q (h b))
    → Q (elim o [ inr e ↦ g e | inl b ↦ h b ])
either_cases Q (inl b) g h x y = y b refl
either_cases Q (inr e) g h x y = x e refl

-- What a reset wants of the row and its user.
abbrev pub IsUsable : Moment → List User → OneTimeToken → Type 0
IsUsable m users t =
    (is_some t.used_at ≡ false)
    × (m.now ≤ t.expires_at)
    × (u : User) × (find (is_present t.user_id) users ≡ some u)

module _ {R : Type 0} (pk : Packages) (st : Store R) where
  usable_case :
      (m : Moment) (a : Accounts R) (o : Option OneTimeToken) (id : Text)
      → usable pk st m a o ≡ inl id
      → (t : OneTimeToken) × (o ≡ some t) × (t.user_id ≡ id) × IsUsable m a.users t
  unfolding usable
  usable_case m a none id = λ e. cc
  usable_case m a (some t) id =
      let Q = λ (o : Text ⊎ AuthError).
        o ≡ inl id
        → (s : OneTimeToken) × (some t ≡ some s) × (s.user_id ≡ id) × IsUsable m a.users s in
      if_case Q (is_some t.used_at) _ _ (λ b e. cc)
        (λ used.
          if_case Q (ltb t.expires_at m.now) _ _ (λ b e. cc)
            (λ late.
              if_case Q (is_none (find (is_present t.user_id) a.users)) _ _ (λ b e. cc)
                (λ known e.
                  let (u, h) = there (find (is_present t.user_id) a.users) known in
                  (t, refl, inl_inj _ _ e, (used, ground arith, u, h)))))

  reset_done :
      (m : Moment) (token password : Text) (a : Accounts R)
      → (on_reset_password pk st m token password a).0 ≡ accepted
      → (t : OneTimeToken) × (find (has_hash (pk.hash_token token)) a.reset_tokens ≡ some t)
        × IsUsable m a.users t
        × ((on_reset_password pk st m token password a).1.users
            ≡ change_user t.user_id (with_password pk st m password) a.users)
        × UsedUp (pk.hash_token token) (on_reset_password pk st m token password a).1.reset_tokens
  unfolding on_reset_password
  reset_done m token password a =
      let found = find (has_hash (pk.hash_token token)) a.reset_tokens in
      let Q = λ (o : Outcome pk st).
        o.0 ≡ accepted
        → (t : OneTimeToken) × (found ≡ some t)
          × IsUsable m a.users t
          × (o.1.users ≡ change_user t.user_id (with_password pk st m password) a.users)
          × UsedUp (pk.hash_token token) o.1.reset_tokens in
      either_cases Q (usable pk st m a found) _ _ (λ x h q. cc)
        (λ id h.
          if_case Q m.commits _ _
            (λ b q.
              let (t, e, i, k) = usable_case m a found id h in
              (
                t,
                e,
                k,
                ap (λ j. change_user j (with_password pk st m password) a.users) (sym i),
                use-UsedUp (pk.hash_token token) m.now a.reset_tokens t e,
              ))
            (λ b q. cc))

  refused_later :
      (m : Moment) (token password : Text) (a : Accounts R)
      → UsedUp (pk.hash_token token) a.reset_tokens
      → (on_reset_password pk st m token password a).0 ≡ refused link_invalid
  unfolding on_reset_password
  refused_later m token password a u =
      let found = find (has_hash (pk.hash_token token)) a.reset_tokens in
      let Q = λ (o : Outcome pk st). o.0 ≡ refused link_invalid in
      either_cases Q (usable pk st m a found) _ _
        (λ x h.
          ap refused (inr_inj _ _ (sym h ∙ refused_again pk st (pk.hash_token token) m a found u)))
        (λ id h.
          elim (not_both _ _ (sym h ∙ refused_again pk st (pk.hash_token token) m a found u)) [ ])

  -- A link to reset a password works once. A reset that succeeds has found the row of its token: not
  -- used, not past its expiry, and of a user that is not deleted; it writes the hash of the new
  -- password to that user's row and to no other. Afterwards, whatever calls follow, every reset with
  -- this token is refused.
  pub reset_works_once :
      (m : Moment) (token password : Text) (a : Accounts R) (cs : List (Moment × Call))
      (m' : Moment) (password' : Text)
      → (on_reset_password pk st m token password a).0 ≡ accepted
      → (t : OneTimeToken) × (find (has_hash (pk.hash_token token)) a.reset_tokens ≡ some t)
        × IsUsable m a.users t
        × ((on_reset_password pk st m token password a).1.users
            ≡ change_user t.user_id (with_password pk st m password) a.users)
        × ((on_reset_password pk st m' token password'
              (serve_all pk st cs (on_reset_password pk st m token password a).1)).0
            ≡ refused link_invalid)
  reset_works_once m token password a cs m' password' q =
      let (t, e, k, users, used) = reset_done m token password a q in
      (
        t,
        e,
        k,
        users,
        refused_later m' token password' _ (
            all-Done pk st (pk.hash_token token) cs (on_reset_password pk st m token password a).1
              used),
      )
