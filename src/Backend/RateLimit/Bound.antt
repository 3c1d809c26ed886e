-- ===== src/Backend/RateLimit/Bound.antt =====
-- backend/app/middleware/rate_limit.py: how many requests pass in a minute.
use forex_bot.Common.{
  ℕ, suc, ◌+◌, ◌-◌, ◌*◌, ◌≤◌, ◌<◌, ◌≡◌, ◌≢◌, refl, sym, ap, ◌∙◌, subst, Bool, true, false, ◌&&◌,
  Option, none, some, List, [], ◌∷◌, All, leb, ◌==◌, if◌then◌else◌, Bool-cases, inl, inr, arith,
}
use forex_bot.Common.Cases.{if_case}
use forex_bot.Common.Text.{Text, text_beq, text_beq_iff}
use forex_bot.Backend.RateLimit.{
  second, Counter, is_alive, incremented, with_expiry, Redis, Health, up, Request, window_of,
  key_of, request_key, check_with, check, passed,
}

-- The first moment after a window.
abbrev over : ℕ → ℕ
over window = (window + 1) * (60 * second)

-- A counter that does not expire within the window.
abbrev Lasts : ℕ → Option Counter → Type 0
Lasts window none = Unit
Lasts window (some c) = (now : ℕ) → now < over window → is_alive now c.expires_at ≡ true

abbrev used : Option Counter → ℕ
used none = 0
used (some c) = c.value

true_not_false : true ≡ false → ⊥
true_not_false e = cc

value_next :
    (window now : ℕ) (o : Option Counter)
    → now < over window
    → Lasts window o
    → (incremented now o).value ≡ used o + 1
value_next window now none l h = omega arith
value_next window now (some c) l h =
    if_case (λ (d : Counter). d.value ≡ c.value + 1) (is_alive now c.expires_at) _ _ (λ e. refl)
      (λ e. elim (true_not_false (sym (h now l) ∙ e)) [ ])

in_window :
    (window now : ℕ)
    → window_of now ≡ window
    → (now < over window) × (over window ≤ now + 60 * second)
in_window window now h = omega arith

-- A counter that is not new keeps its expiry.
Lasts-next :
    (window now : ℕ) (o : Option Counter)
    → now < over window
    → Lasts window o
    → ((incremented now o).value == 1) ≡ false
    → Lasts window (some (incremented now o))
Lasts-next window now none l h e = elim (true_not_false e) [ ]
Lasts-next window now (some c) l h e =
    if_case (λ (d : Counter). (d.value == 1) ≡ false → Lasts window (some d))
      (is_alive now c.expires_at) _ _ (λ a x. h)
      (λ a x. elim (true_not_false (sym (h now l) ∙ a)) [ ]) e

expiry-Lasts :
    (window now : ℕ) (c : Counter)
    → over window ≤ now + 60 * second
    → Lasts window (with_expiry (now + 90 * second) (some c))
expiry-Lasts window now c l time h = ground arith

same_step :
    (ok b : Bool) (rest u u' limit per_min : ℕ)
    → b ≡ true
    → ok ≡ leb (u + 1) per_min
    → per_min ≤ limit
    → u' ≡ u + 1
    → rest ≤ limit - u'
    → (if ok && b then suc rest else rest) ≤ limit - u
same_step ok b rest u u' limit per_min h o l e r = ground arith

other_step :
    (ok b : Bool) (rest bound : ℕ)
    → b ≡ false
    → rest ≤ bound
    → (if ok && b then suc rest else rest) ≤ bound
other_step ok b rest bound h r = ground arith

module _ {R : Type 0} (redis : Redis R) where
  -- What a request that is counted answers, and does to the counter of its key.
  abbrev Counts : Request → ℕ → R → Bool × R → Type 0
  Counts q window r o =
      (o.0 ≡ leb (used (redis.peek (request_key q) r) + 1) q.per_min)
      × (used (redis.peek (request_key q) o.1) ≡ used (redis.peek (request_key q) r) + 1)
      × Lasts window (redis.peek (request_key q) o.1)

  counted_lem :
      (q : Request) (window : ℕ) (r : R)
      → window_of q.now ≡ window
      → Lasts window (redis.peek (request_key q) r)
      → Counts q window r (check_with redis up q r)
  counted_lem q window r w l =
      let key = request_key q in
      let (lo, hi) = in_window window q.now w in
      let o = redis.peek key r in
      let c = incremented q.now o in
      let r1 = (redis.incr key q.now r).1 in
      let v = redis.incr_value key q.now r ∙ value_next window q.now o lo l in
      let p = redis.peek-incr key q.now r in
      if_case (Counts q window r) ((redis.incr key q.now r).0 == 1) _ _
        (λ b.
          let s = redis.peek-expire key 90 q.now r1 ∙ ap (with_expiry (q.now + 90 * second)) p in
          (
            ap (λ n. leb n q.per_min) v,
            ap used s ∙ value_next window q.now o lo l,
            subst (Lasts window) (sym s) (expiry-Lasts window q.now c hi),
          ))
        (λ b. (
          ap (λ n. leb n q.per_min) v,
          ap used p ∙ value_next window q.now o lo l,
          subst (Lasts window) (sym p) (
              Lasts-next window q.now o lo l
                (ap (λ n. n == 1) (sym (redis.incr_value key q.now r)) ∙ b)),
        ))

  other_lem :
      (q : Request) (key : Text) (r : R)
      → key ≢ request_key q
      → redis.peek key (check_with redis up q r).1 ≡ redis.peek key r
  other_lem q key r n =
      let r1 = (redis.incr (request_key q) q.now r).1 in
      let e = redis.peek-incr_other (request_key q) key q.now r n in
      if_case (λ (o : Bool × R). redis.peek key o.1 ≡ redis.peek key r)
        ((redis.incr (request_key q) q.now r).0 == 1) _ _
        (λ b. redis.peek-expire_other (request_key q) key 90 q.now r1 n ∙ e) (λ b. e)

  -- A request of the window, which Redis counts; with the key, its limit is at most the given one.
  abbrev pub Within : Text → ℕ → ℕ → Request → Type 0
  Within key window limit q =
      (q.health ≡ up) × (window_of q.now ≡ window) × (request_key q ≡ key → q.per_min ≤ limit)

  passed-le :
      (key : Text) (window limit : ℕ) (qs : List Request) (r : R)
      → All (Within key window limit) qs
      → Lasts window (redis.peek key r)
      → passed redis key qs r ≤ limit - used (redis.peek key r)
  unfolding passed check
  passed-le key window limit [] r a l = omega arith
  passed-le key window limit (q ∷ qs) r a l =
      let o = check_with redis up q r in
      let rest = passed redis key qs o.1 in
      subst
        (λ (h : Health).
          (if (check_with redis h q r).0 && text_beq (request_key q) key
            then suc (passed redis key qs (check_with redis h q r).1)
            else passed redis key qs (check_with redis h q r).1)
          ≤ limit - used (redis.peek key r))
        (sym a.0.0)
        (elim (Bool-cases (text_beq (request_key q) key)) [
          | inl b ↦
              let e = (text_beq_iff (request_key q) key).0 b in
              let (x, y, z) =
                counted_lem q window r a.0.1
                  (subst (λ k. Lasts window (redis.peek k r)) (sym e) l) in
              same_step o.0 (text_beq (request_key q) key) rest (used (redis.peek key r))
                (used (redis.peek key o.1)) limit q.per_min b
                (subst (λ k. o.0 ≡ leb (used (redis.peek k r) + 1) q.per_min) e x) (a.0.2 e)
                (subst (λ k. used (redis.peek k o.1) ≡ used (redis.peek k r) + 1) e y)
                (passed-le key window limit qs o.1 a.1
                  (subst (λ k. Lasts window (redis.peek k o.1)) e z))
          | inr b ↦
              let n =
                other_lem q key r (λ e. true_not_false (sym ((text_beq_iff _ _).1 (sym e)) ∙ b)) in
              other_step o.0 (text_beq (request_key q) key) rest _ b (
                subst (λ p. rest ≤ limit - used p) n
                  (passed-le key window limit qs o.1 a.1 (subst (Lasts window) (sym n) l)))
        ])

  -- Of the requests of one scope and identity in one minute, whose limit is at most this one, at most
  -- that many pass, whatever other requests come in between, if Redis answers them all and none has
  -- been counted before.
  pub passed_bound :
      (scope identity : Text) (window limit : ℕ) (qs : List Request) (r : R)
      → All (Within (key_of scope identity window) window limit) qs
      → redis.peek (key_of scope identity window) r ≡ none
      → passed redis (key_of scope identity window) qs r ≤ limit
  passed_bound scope identity window limit qs r a n =
      let key = key_of scope identity window in
      let h =
        subst (λ p. passed redis key qs r ≤ limit - used p) n
          (passed-le key window limit qs r a (subst (Lasts window) (sym n) tt)) in
      omega arith
