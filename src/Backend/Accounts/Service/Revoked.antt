-- ===== src/Backend/Accounts/Service/Revoked.antt =====
-- backend/app/services/auth_service.py: a refresh token that was used is not accepted again.
use forex_bot.Common.{
  ℕ, ◌+◌, ◌*◌, ◌<◌, ◌≡◌, refl, sym, ap, ◌∙◌, subst, inl, inr, Bool, true, false, not, Option, none,
  some, List, [], ◌∷◌, ltb, Bool-cases, arith,
}
use forex_bot.Common.Cases.{if_case, option_case}
use forex_bot.Common.Text.{Text, codes, text_beq, text_beq_iff}
use forex_bot.Backend.Gate.{find}
use forex_bot.Backend.Accounts.Types.{
  Claims, Packages, second, Store, RedisState, missing, down, up, Accounts, Moment, token_invalid,
  issued, refused, Call, signup, login, refresh, logout, verify_email, request_password_reset,
  reset_password, enroll_totp, confirm_totp,
}
use forex_bot.Backend.Accounts.Service.{
  is_present, revoked_key, ttl_of, Outcome, decode_token, revoke_jti, is_revoked, rotate,
  on_refresh, on_logout, serve, serve_all,
}
use forex_bot.Backend.Accounts.Service.Keeps.{
  signup-Keeps, login-Keeps, verify-Keeps, request-Keeps, reset-Keeps, enroll-Keeps, confirm-Keeps,
}

-- An entry that is set for a token of this expiry lives until it, in microseconds.
outlives :
    (exp now time : ℕ) → time < exp * second → ltb time (now + ttl_of exp now * second) ≡ true
outlives exp now time h = ground arith

key_inj : (s t : Text) → revoked_key s ≡ revoked_key t → s ≡ t
key_inj s t e = cc

some_inj : {A : Type 0} (x y : A) → some x ≡ some y → x ≡ y
some_inj x y e = cc

absurd_answer : {id : Text} → refused token_invalid ≡ issued id → ⊥
absurd_answer e = cc

not_issued : {A : Type 0} {id : Text} → refused token_invalid ≡ issued id → A
not_issued e = elim (absurd_answer e) [ ]

true_not_false : true ≡ false → ⊥
true_not_false e = cc

redis_case :
    {R : Type 0} (s : RedisState) (x r : R) (Q : R → Type 0)
    → Q x
    → Q r
    → Q (elim s [ up ↦ x | _ ↦ r ])
redis_case missing x r Q h k = k
redis_case down x r Q h k = k
redis_case up x r Q h k = h

module _ {R : Type 0} (pk : Packages) (st : Store R) (jti : Text) (exp : ℕ) where
  -- Until its expiry the identifier is on the denylist.
  abbrev pub IsDenied : R → Type 0
  IsDenied r = (time : ℕ) → time < exp * second → st.has (revoked_key jti) time r ≡ true

  -- Tokens with this identifier expire at this second: `create_token` draws an identifier for each
  -- token, and no other key makes tokens that verify.
  abbrev pub IsOneToken : Type 0
  IsOneToken =
      (token : Text) (now : ℕ) (c : Claims)
      → pk.decode token now ≡ some c
      → c.jti ≡ some jti
      → c.exp ≡ exp

  decoded :
      (typ token : Text) (now : ℕ) (c : Claims)
      → decode_token pk st typ token now ≡ some c
      → pk.decode token now ≡ some c
  unfolding decode_token
  decoded typ token now c =
      option_case (λ (o : Option Claims). o ≡ some c → pk.decode token now ≡ some c)
        (pk.decode token now) _ _ (λ e h. cc)
        (λ d e.
          if_case (λ (o : Option Claims). o ≡ some c → pk.decode token now ≡ some c)
            (not (text_beq d.typ typ)) _ _ (λ b h. cc) (λ b h. e ∙ h))

  set-IsDenied :
      (k : Text) (e now : ℕ) (r : R)
      → (k ≡ jti → e ≡ exp)
      → IsDenied r
      → IsDenied (st.setex (revoked_key k) (ttl_of e now) now r)
  set-IsDenied k e now r u d time l = elim (Bool-cases (text_beq k jti)) [
    | inl q ↦
        let s = (text_beq_iff k jti).0 q in
        subst
          (λ x. st.has (revoked_key x) time (st.setex (revoked_key k) (ttl_of e now) now r) ≡ true)
          s
          (st.has-setex (revoked_key k) (ttl_of e now) now time r
            ∙ outlives e now time (subst (λ x. time < x * second) (sym (u s)) l))
    | inr q ↦
        st.has_other (revoked_key k) (revoked_key jti) (ttl_of e now) now time r
          (λ s. true_not_false (sym ((text_beq_iff k jti).1 (key_inj k jti (sym s))) ∙ q))
        ∙ d time l
  ]

  revoke_any :
      (m : Moment) (o : Option Text) (e : ℕ) (r : R)
      → (o ≡ some jti → e ≡ exp)
      → IsDenied r
      → IsDenied (revoke_jti pk st m o (ttl_of e m.now) r)
  unfolding revoke_jti
  revoke_any m none e r u d = d
  revoke_any m (some k) e r u d =
      redis_case m.redis _ r IsDenied (set-IsDenied k e m.now r (λ q. u (ap some q)) d) d

  revoke-IsDenied :
      (m : Moment) (c : Claims) (r : R)
      → (c.jti ≡ some jti → c.exp ≡ exp)
      → IsDenied r
      → IsDenied (revoke_jti pk st m c.jti (ttl_of c.exp m.now) r)
  revoke-IsDenied m c r u d = revoke_any m c.jti c.exp r u d

  rotate-IsDenied :
      (m : Moment) (c : Claims) (a : Accounts R)
      → (c.jti ≡ some jti → c.exp ≡ exp)
      → IsDenied a.denylist
      → IsDenied (rotate pk st m c a).1.denylist
  unfolding rotate
  rotate-IsDenied m c a u d =
      let Q = λ (o : Outcome pk st). IsDenied o.1.denylist in
      option_case Q c.sub _ _ (λ e. d)
        (λ id e.
          option_case Q (find (is_present id) a.users) _ _ (λ n. d)
            (λ x n. revoke-IsDenied m c a.denylist u d))

  refresh-IsDenied :
      (m : Moment) (token : Text) (a : Accounts R)
      → IsOneToken
      → IsDenied a.denylist
      → IsDenied (on_refresh pk st m token a).1.denylist
  unfolding on_refresh
  refresh-IsDenied m token a one d =
      let Q = λ (o : Outcome pk st). IsDenied o.1.denylist in
      option_case Q (decode_token pk st (codes "refresh") token m.now) _ _ (λ e. d)
        (λ c e.
          if_case Q (is_revoked pk st m c.jti a.denylist) _ _ (λ b. d)
            (λ b. rotate-IsDenied m c a (one token m.now c (decoded _ token m.now c e)) d))

  logout-IsDenied :
      (m : Moment) (token : Option Text) (a : Accounts R)
      → IsOneToken
      → IsDenied a.denylist
      → IsDenied (on_logout pk st m token a).1.denylist
  unfolding on_logout
  logout-IsDenied m none a one d = d
  logout-IsDenied m (some token) a one d =
      option_case (λ (o : Outcome pk st). IsDenied o.1.denylist)
        (decode_token pk st (codes "refresh") token m.now) _ _ (λ e. d)
        (λ c e. revoke-IsDenied m c a.denylist (one token m.now c (decoded _ token m.now c e)) d)

  serve-IsDenied :
      (m : Moment) (c : Call) (a : Accounts R)
      → IsOneToken
      → IsDenied a.denylist
      → IsDenied (serve pk st m c a).1.denylist
  unfolding serve
  serve-IsDenied m (signup email password) a one d =
      signup-Keeps pk st m a (λ r _. IsDenied r) d email password
  serve-IsDenied m (login email password code) a one d =
      login-Keeps pk st m a (λ r _. IsDenied r) d email password code
  serve-IsDenied m (refresh token) a one d = refresh-IsDenied m token a one d
  serve-IsDenied m (logout token) a one d = logout-IsDenied m token a one d
  serve-IsDenied m (verify_email token) a one d = verify-Keeps pk st m a (λ r _. IsDenied r) d token
  serve-IsDenied m (request_password_reset email) a one d =
      request-Keeps pk st m a (λ r _. IsDenied r) d (λ _. d) email
  serve-IsDenied m (reset_password token password) a one d =
      reset-Keeps pk st m a (λ r _. IsDenied r) d (λ _. d) token password
  serve-IsDenied m (enroll_totp id) a one d = enroll-Keeps pk st m a (λ r _. IsDenied r) d id
  serve-IsDenied m (confirm_totp id code) a one d =
      confirm-Keeps pk st m a (λ r _. IsDenied r) d id code

  all-IsDenied :
      (cs : List (Moment × Call)) (a : Accounts R)
      → IsOneToken
      → IsDenied a.denylist
      → IsDenied (serve_all pk st cs a).denylist
  unfolding serve_all
  all-IsDenied [] a one d = d
  all-IsDenied ((m, c) ∷ cs) a one d =
      all-IsDenied cs (serve pk st m c a).1 one (serve-IsDenied m c a one d)

  -- The token has the identifier, whenever it verifies.
  abbrev pub Carries : Text → Type 0
  Carries token = (now : ℕ) (c : Claims) → pk.decode token now ≡ some c → c.jti ≡ some jti

  revoked_now :
      (m : Moment) (o : Option Text) (e : ℕ) (r : R)
      → m.redis ≡ up
      → o ≡ some jti
      → e ≡ exp
      → IsDenied (revoke_jti pk st m o (ttl_of e m.now) r)
  unfolding revoke_jti
  revoked_now m none e r u o q time l = cc
  revoked_now m (some k) e r u o q time l =
      let s = some_inj k jti o in
      let set : st.has (revoked_key jti) time (st.setex (revoked_key k) (ttl_of e m.now) m.now r)
          ≡ true =
        subst
          (λ x.
            st.has (revoked_key x) time (st.setex (revoked_key k) (ttl_of e m.now) m.now r) ≡ true)
          s
          (st.has-setex (revoked_key k) (ttl_of e m.now) m.now time r
            ∙ outlives e m.now time (subst (λ x. time < x * second) (sym q) l)) in
      subst
        (λ (s : RedisState).
          st.has (revoked_key jti) time
            (elim s [ up ↦ st.setex (revoked_key k) (ttl_of e m.now) m.now r | _ ↦ r ])
          ≡ true)
        (sym u) set

  issued-IsDenied :
      (m : Moment) (token : Text) (id : Text) (a : Accounts R)
      → IsOneToken
      → Carries token
      → m.redis ≡ up
      → (on_refresh pk st m token a).0 ≡ issued id
      → IsDenied (on_refresh pk st m token a).1.denylist
  unfolding on_refresh rotate
  issued-IsDenied m token id a one has u =
      let Q = λ (o : Outcome pk st). o.0 ≡ issued id → IsDenied o.1.denylist in
      option_case Q (decode_token pk st (codes "refresh") token m.now) _ _ (λ e q. not_issued q)
        (λ c e.
          if_case Q (is_revoked pk st m c.jti a.denylist) _ _ (λ b q. not_issued q)
            (λ b.
              option_case Q c.sub _ _ (λ n q. not_issued q)
                (λ i n.
                  option_case Q (find (is_present i) a.users) _ _ (λ x q. not_issued q)
                    (λ x y q.
                      let d = decoded _ token m.now c e in
                      let j = has m.now c d in
                      revoked_now m c.jti c.exp a.denylist u j (one token m.now c d j)))))

  revoked_seen :
      (m : Moment) (o : Option Text) (r : R)
      → m.redis ≡ up
      → o ≡ some jti
      → m.now < exp * second
      → IsDenied r
      → is_revoked pk st m o r ≡ true
  unfolding is_revoked
  revoked_seen m none r u o l d = cc
  revoked_seen m (some k) r u o l d =
      subst
        (λ (s : RedisState).
          (elim s as (λ _. Bool) [ up ↦ st.has (revoked_key k) m.now r | _ ↦ false ]) ≡ true)
        (sym u)
        (subst (λ x. st.has (revoked_key x) m.now r ≡ true) (sym (some_inj k jti o)) (d m.now l))

  -- A refresh token works once: after a refresh that issued a new pair while Redis answered, whatever
  -- calls follow, with Redis or without, a refresh with that token, or with any of its identifier,
  -- is refused as invalid at every time before the token's expiry at which Redis answers.
  pub refresh_works_once :
      (m : Moment) (token id : Text) (a : Accounts R) (cs : List (Moment × Call)) (m' : Moment)
      (token' : Text)
      → IsOneToken
      → Carries token
      → Carries token'
      → m.redis ≡ up
      → (on_refresh pk st m token a).0 ≡ issued id
      → m'.redis ≡ up
      → m'.now < exp * second
      → (on_refresh pk st m' token' (serve_all pk st cs (on_refresh pk st m token a).1)).0
        ≡ refused token_invalid
  unfolding on_refresh
  refresh_works_once m token id a cs m' token' one has has' u q u' l =
      let b = serve_all pk st cs (on_refresh pk st m token a).1 in
      let d =
        all-IsDenied cs (on_refresh pk st m token a).1 one
          (issued-IsDenied m token id a one has u q) in
      let Q = λ (o : Outcome pk st). o.0 ≡ refused token_invalid in
      option_case Q (decode_token pk st (codes "refresh") token' m'.now) _ _ (λ e. refl)
        (λ c e.
          if_case Q (is_revoked pk st m' c.jti b.denylist) _ _ (λ x. refl)
            (λ x.
              elim (true_not_false (
                sym (
                  revoked_seen m' c.jti b.denylist u' (has' m'.now c (decoded _ token' m'.now c e))
                    l d)
                ∙ x)) [ ]))
