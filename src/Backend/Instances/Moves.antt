-- ===== src/Backend/Instances/Moves.antt =====
-- backend/app/services/strategy_service.py: the life cycle of an instance as a specification, and
-- what a call that changes one row keeps.
use forex_bot.Common.{
  ℕ, ◌≡◌, ◌≢◌, ◌⊎◌, inl, inr, refl, sym, ap, ◌∙◌, subst, Bool, true, false, not, ◌&&◌, ◌||◌, Option,
  none, some, List, [], ◌∷◌, ◌++◌, if◌then◌else◌, Bool-cases, arith,
}
use forex_bot.Common.Cases.{if_case, option_case}
use forex_bot.Common.Text.{Text, codes, text_beq, text_beq_iff}
use forex_bot.Backend.Gate.{find, is_some}
use forex_bot.Backend.Instances.{
  is_own, has_status, mode_text, change, Outcome, commit, touches_risk, updated, on_own, or_keep,
}
use forex_bot.Backend.Instances.Rows.{
  Instance, Tables, UpdateRequest, Message, Around, Call, create, update, go_live, revert_to_paper,
  start, stop, kill,
}

module _ {F : Type 0} where
  abbrev pub status : Instance F → Text
  status i = i.row.status

  -- The life cycle: the move from one status to another that each call may make.
  abbrev pub Moves : Call F → Text → Text → Type 0
  Moves (create _ r) s s' = ⊥
  Moves (update _ _ r) s s' = (s' ≡ s) × (s ≢ codes "killed")
  Moves (go_live _ _) s s' = (s ≢ codes "live") × (s ≢ codes "killed") × (s' ≡ codes "live")
  Moves (revert_to_paper _ _) s s' = (s ≡ codes "live") × (s' ≡ codes "paper")
  Moves (start _ _) s s' =
      (s ≢ codes "killed") × (s ≢ codes "paper") × (s ≢ codes "live") × (s' ≡ codes "paper")
  Moves (stop _ _) s s' = (s ≢ codes "killed") × (s' ≡ codes "stopped")
  Moves (kill _ _) s s' = s' ≡ codes "killed"

  -- The instance of the call is the caller's, and not deleted.
  abbrev pub Addresses : Call F → Instance F → Type 0
  Addresses (create u r) i = ⊥
  Addresses (update u id r) i = is_own u id i ≡ true
  Addresses (go_live u id) i = is_own u.id id i ≡ true
  Addresses (revert_to_paper u id) i = is_own u id i ≡ true
  Addresses (start u id) i = is_own u id i ≡ true
  Addresses (stop u id) i = is_own u id i ≡ true
  Addresses (kill u id) i = is_own u id i ≡ true

  abbrev pub IsUpdate : Call F → Type 0
  IsUpdate (update u id r) = Unit
  IsUpdate _ = ⊥

  abbrev pub SameRisk : Instance F → Instance F → Type 0
  SameRisk i i' =
      (i'.params ≡ i.params)
      × (i'.risk_percent ≡ i.risk_percent)
      × (i'.max_daily_loss_cents ≡ i.max_daily_loss_cents)

  abbrev pub SameOwner : Instance F → Instance F → Type 0
  SameOwner i i' =
      (i'.row.id ≡ i.row.id)
      × (i'.row.user_id ≡ i.row.user_id)
      × (i'.row.strategy_id ≡ i.row.strategy_id)
      × (i'.row.broker_account_id ≡ i.row.broker_account_id)
      × (i'.row.deleted_at ≡ i.row.deleted_at)

  -- What a call may do to a row.
  abbrev pub Evolves : Call F → Instance F → Instance F → Type 0
  Evolves c i i' =
      (i' ≡ i)
      ⊎ (Addresses c i
          × Moves c (status i) (status i')
          × SameOwner i i'
          × (SameRisk i i' ⊎ (IsUpdate c × (status i ≢ codes "live"))))

  -- A new row is the caller's, in the mode of the request.
  abbrev pub IsNew : Around → Call F → Instance F → Type 0
  IsNew ar (create u r) i =
      (i.row.id ≡ ar.next_id) × (i.row.user_id ≡ u) × (status i ≡ mode_text r.mode)
  IsNew ar _ i = ⊥

  -- Row by row, with new rows at the end.
  abbrev pub Follows :
      (Instance F → Instance F → Type 0)
      → (Instance F → Type 0)
      → List (Instance F)
      → List (Instance F)
      → Type 0
  Follows R N [] [] = Unit
  Follows R N [] (j ∷ js) = N j × Follows R N [] js
  Follows R N (i ∷ is) [] = ⊥
  Follows R N (i ∷ is) (j ∷ js) = R i j × Follows R N is js

some_is : {A : Type 0} (x y : A) → some x ≡ some y → x ≡ y
some_is x y h = cc

pub find-head :
    {A : Type 0} (p : A → Bool) (xs : List A) (y x : A)
    → p y ≡ true
    → find p (y ∷ xs) ≡ some x
    → y ≡ x
unfolding find
find-head p xs y x e h = some_is y x (ap (λ b. if b then some y else find p xs) (sym e) ∙ h)

pub find-tail :
    {A : Type 0} (p : A → Bool) (xs : List A) (y x : A)
    → p y ≡ false
    → find p (y ∷ xs) ≡ some x
    → find p xs ≡ some x
unfolding find
find-tail p xs y x e h = ap (λ b. if b then some y else find p xs) (sym e) ∙ h

pub find_holds : {A : Type 0} (p : A → Bool) (xs : List A) (x : A) → find p xs ≡ some x → p x ≡ true
find_holds p [] x h = unfold find in cc
find_holds p (y ∷ xs) x h = elim (Bool-cases (p y)) [
  | inl e ↦ subst (λ z. p z ≡ true) (find-head p xs y x e h) e
  | inr e ↦ find_holds p xs x (find-tail p xs y x e h)
]

pub not_text : (s t : Text) → text_beq s t ≡ false → s ≢ t
not_text s t h e = ground (arith, text_beq_iff s t)

pub is_text : (s t : Text) → text_beq s t ≡ true → s ≡ t
is_text s t h = (text_beq_iff s t).0 h

module _ {F : Type 0} (R : Instance F → Instance F → Type 0) (N : Instance F → Type 0)
    (same : (i : Instance F) → R i i) where
  pub Follows-self : (rows : List (Instance F)) → Follows R N rows rows
  Follows-self [] = tt
  Follows-self (i ∷ rows) = (same i, Follows-self rows)

  pub Follows-append :
      (rows : List (Instance F)) (j : Instance F) → N j → Follows R N rows (rows ++ (j ∷ []))
  Follows-append [] j n = (n, tt)
  Follows-append (i ∷ rows) j n = (same i, Follows-append rows j n)

  pub Follows-change :
      (u id : ℕ) (g : Instance F → Instance F) (rows : List (Instance F)) (i : Instance F)
      → find (is_own u id) rows ≡ some i
      → R i (g i)
      → Follows R N rows (change u id g rows)
  unfolding change
  Follows-change u id g [] i h r = tt
  Follows-change u id g (j ∷ rows) i h r =
      if_case (λ js. Follows R N (j ∷ rows) js) (is_own u id j) (g j ∷ rows)
        (j ∷ change u id g rows)
        (λ e. (
          subst (λ k. R k (g k)) (sym (find-head (is_own u id) rows j i e h)) r,
          Follows-self rows,
        ))
        (λ e. (same j, Follows-change u id g rows i (find-tail (is_own u id) rows j i e h) r))

  pub commit-Follows :
      (ar : Around) (t : Tables F) (rows : List (Instance F)) (sent : List (Message F))
      → Follows R N t.instances rows
      → Follows R N t.instances (commit ar t rows sent).1.instances
  unfolding commit
  commit-Follows ar t rows sent h =
      if_case (λ (o : Outcome F). Follows R N t.instances o.1.instances) ar.commits _ _ (λ e. h)
        (λ e. Follows-self t.instances)

-- A call that changes the row that it finds, if at all.
module _ {F : Type 0} (ar : Around) (u id : ℕ) (t : Tables F) (c : Call F) where
  abbrev pub Good : Outcome F → Type 0
  Good o = Follows (Evolves c) (IsNew ar c) t.instances o.1.instances

  stays : (i : Instance F) → Evolves c i i
  stays i = inl refl

  pub refused-Good : Follows (Evolves c) (IsNew ar c) t.instances t.instances
  refused-Good = Follows-self (Evolves c) (IsNew ar c) stays t.instances

  pub on_own-Good :
      (g : Instance F → Outcome F)
      → ((i : Instance F) → find (is_own u id) t.instances ≡ some i → Good (g i))
      → Good (on_own ar u id t g)
  unfolding on_own
  on_own-Good g h =
      option_case Good (find (is_own u id) t.instances) _ g (λ e. refused-Good) (λ i e. h i e)

  pub apply-Good :
      (g : Instance F → Instance F) (sent : List (Message F)) (i : Instance F)
      → find (is_own u id) t.instances ≡ some i
      → Evolves c i (g i)
      → Good (commit ar t (change u id g t.instances) sent)
  apply-Good g sent i e r =
      commit-Follows (Evolves c) (IsNew ar c) stays ar t _ sent
        (Follows-change (Evolves c) (IsNew ar c) stays u id g t.instances i e r)

or_keep_none : {A : Type 0} (o : Option A) (a : A) → is_some o ≡ false → or_keep o a ≡ a
or_keep_none none a h = refl
or_keep_none (some b) a h = cc

none_of : (a b c : Bool) → (a || (b || c)) ≡ false → (a ≡ false) × (b ≡ false) × (c ≡ false)
none_of true b c h = cc
none_of false true c h = cc
none_of false false c h = (refl, refl, h)

pub neither : (a b : Bool) → (a || b) ≡ false → (a ≡ false) × (b ≡ false)
neither true b h = cc
neither false b h = (refl, h)

pub of_not : (b : Bool) → not b ≡ false → b ≡ true
of_not true h = refl
of_not false h = cc

pub risk_kept :
    {F : Type 0} (r : UpdateRequest F) (i : Instance F)
    → (has_status (codes "live") i && touches_risk r) ≡ false
    → SameRisk i (updated r i) ⊎ (Unit {0} × (status i ≢ codes "live"))
risk_kept r i h = elim (Bool-cases (has_status (codes "live") i)) [
  | inl e ↦
      let (hr, hd, hp) = none_of _ _ _ (ap (λ b. b && touches_risk r) (sym e) ∙ h) in
      inl (
        or_keep_none r.params i.params hp,
        or_keep_none r.risk_percent i.risk_percent hr,
        or_keep_none r.max_daily_loss_cents i.max_daily_loss_cents hd,
      )
  | inr e ↦ inr (tt, not_text (status i) (codes "live") e)
]
