-- ===== src/Backend/RateLimit/Tests.antt =====
-- backend/app/middleware/rate_limit.py: three requests in a minute with a limit of two, over a
-- dictionary in the place of Redis.
use forex_bot.Common.{
  ℕ, ◌+◌, ◌*◌, ◌≤◌, ◌≡◌, ◌≢◌, refl, ap, ◌∙◌, false, Option, none, some, List, [], ◌∷◌,
  if◌then◌else◌, arith,
}
use forex_bot.Common.Text.{Text, codes, text_beq, text_beq_iff, text_eq}
use forex_bot.Common.Dict.{Dict, lookup, insert, lookup-insert}
use forex_bot.Backend.RateLimit.{
  second, digits, decimal, Counter, incremented, with_expiry, Redis, up, Request, key_of, check,
  passed,
}
use forex_bot.Backend.RateLimit.Bound.{passed_bound}

abbrev expired_at : Text → ℕ → Option Counter → Dict Text Counter → Dict Text Counter
expired_at key end none r = r
expired_at key end (some c) r = insert key (record c { expires_at = some end }) r

found : (key : Text) (c : Counter) (r : Dict Text Counter) → lookup key (insert key c r) ≡ some c
found key c r =
    lookup-insert key key c r
    ∙ ap (λ b. if b then some c else lookup key r) ((text_beq_iff key key).1 refl)

text_other : (s t : Text) → t ≢ s → text_beq s t ≡ false
text_other s t h = ground (arith, text_beq_iff s t)

not_found :
    (key other : Text) (c : Counter) (r : Dict Text Counter)
    → other ≢ key
    → lookup other (insert key c r) ≡ lookup other r
not_found key other c r n =
    lookup-insert key other c r
    ∙ ap (λ b. if b then some c else lookup other r) (text_other key other n)

expire_found :
    (key : Text) (end : ℕ) (o : Option Counter) (r : Dict Text Counter)
    → lookup key r ≡ o
    → lookup key (expired_at key end o r) ≡ with_expiry end o
expire_found key end none r h = h
expire_found key end (some c) r h = found key (record c { expires_at = some end }) r

expire_other :
    (key other : Text) (end : ℕ) (o : Option Counter) (r : Dict Text Counter)
    → other ≢ key
    → lookup other (expired_at key end o r) ≡ lookup other r
expire_other key other end none r n = refl
expire_other key other end (some c) r n =
    not_found key other (record c { expires_at = some end }) r n

abbrev redis : Redis (Dict Text Counter)
redis = record {
  incr = λ key now r.
      ((incremented now (lookup key r)).value, insert key (incremented now (lookup key r)) r);
  expire = λ key ttl now r. expired_at key (now + ttl * second) (lookup key r) r;
  peek = λ key r. lookup key r;
  incr_value = λ key now r. refl;
  peek-incr = λ key now r. found key (incremented now (lookup key r)) r;
  peek-incr_other = λ key other now r n. not_found key other (incremented now (lookup key r)) r n;
  peek-expire = λ key ttl now r. expire_found key (now + ttl * second) (lookup key r) r refl;
  peek-expire_other =
      λ key other ttl now r n. expire_other key other (now + ttl * second) (lookup key r) r n;
}

abbrev request : ℕ → Request
request sec = record {
  scope = codes "auth";
  identity = codes "u:7";
  per_min = 2;
  now = sec * second;
  health = up;
}

abbrev requests : List Request
requests = request 121 ∷ request 130 ∷ request 179 ∷ []

passed_bound_example : passed redis (key_of (codes "auth") (codes "u:7") 2) requests [] ≤ 2
unfolding lookup
passed_bound_example =
    passed_bound redis (codes "auth") (codes "u:7") 2 2 requests []
      (
        (refl, refl, λ e. omega arith),
        ((refl, refl, λ e. omega arith), ((refl, refl, λ e. omega arith), tt)),
      )
      refl

third_refused : passed redis (key_of (codes "auth") (codes "u:7") 2) requests [] ≡ 2
unfolding passed check lookup insert text_beq decimal digits
third_refused = refl

window_text : key_of (codes "a") (codes "b") 28_400_000 ≡ codes "rl:a:b:28400000"
unfolding decimal digits
window_text = refl
