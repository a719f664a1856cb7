-- ===== src/LockedMap/Pairs/InFlight.antt =====
-- What holds of one thread and of the values in the middle of an operation of
-- server/include/locked_map.h.
use zip.Prelude.{
  ℕ, ◌≡◌, ◌≢◌, refl, sym, true, false, List, ◌∷◌, ==_iff, ==_false, ◌⊎◌, inl, inr, arith,
}
use zip.Prelude.Family.{update}
use zip.LockedMap.{Edit, first, second, run_edits, run_edits_aliased}
use zip.LockedMap.Lock.{RwLock}
use zip.LockedMap.Pairs.{
  Stage, outside, at_only, at_first, at_second, inside, leaving, Move, call_only, call_pair,
  take_only, take_first, take_second, free_second, free_last,
}
use zip.LockedMap.Pairs.Values.{Work, apply, replay, Allows, taken_over, changes, CanEdit}

module _ {V : Type 0} where
  abbrev pub OnBoth : ℕ → ℕ → Work V → Type 0
  OnBoth a b w = (a ≢ b) × (((w.one ≡ a) × (w.two ≡ b)) ⊎ ((w.one ≡ b) × (w.two ≡ a)))

  -- A thread's references lead to the entries that it locks.
  abbrev pub Matches : Stage → Work V → Type 0
  Matches outside w = Unit
  Matches (at_only a) w = (w.one ≡ a) × (w.two ≡ a)
  Matches (leaving a) w = (w.one ≡ a) × (w.two ≡ a)
  Matches (at_first a b) w = OnBoth a b w
  Matches (at_second a b) w = OnBoth a b w
  Matches (inside a b) w = OnBoth a b w

  -- What is left to do makes of the values what the whole operation makes.
  abbrev pub InFlight : Stage → Work V → (ℕ → V) → (ℕ → V) → Type 0
  InFlight (inside a b) w v r = run_edits w.edits (v w.one) (v w.two) ≡ (r w.one, r w.two)
  InFlight (leaving a) w v r = run_edits_aliased w.edits (v a) ≡ r a
  InFlight _ w v r = Unit

  pub InFlight-frame :
      (p : Stage) (w : Work V) (v v' r r' : ℕ → V)
      → Matches p w
      → ((x : ℕ) → changes p x ≡ true → (v' x ≡ v x) × (r' x ≡ r x))
      → InFlight p w v r
      → InFlight p w v' r'
  InFlight-frame outside w v v' r r' mt same h = tt
  InFlight-frame (at_only a) w v v' r r' mt same h = tt
  InFlight-frame (at_first a b) w v v' r r' mt same h = tt
  InFlight-frame (at_second a b) w v v' r r' mt same h = tt
  InFlight-frame (leaving a) w v v' r r' mt same h =
      let (e, e') = same a ((==_iff a a).1 refl) in rw (e, e') h
  InFlight-frame (inside a b) w v v' r r' mt same h = elim mt.1 [
    | inl (p, q) ↦
        let (e, e') = same w.one (ground (arith, ==_iff a w.one)) in
        let (d, d') = same w.two (ground (arith, ==_iff b w.two)) in rw (e, e', d, d') h
    | inr (p, q) ↦
        let (e, e') = same w.one (ground (arith, ==_iff b w.one)) in
        let (d, d') = same w.two (ground (arith, ==_iff a w.two)) in rw (e, e', d, d') h
  ]

  pub apply-other : (w : Work V) (f : ℕ → V) (x : ℕ) → w.one ≢ x → w.two ≢ x → apply w f x ≡ f x
  unfolding apply
  apply-other w f x ne ne' = ground (arith, ==_iff w.one x, ==_iff w.two x)

  -- A callback on two entries, and on one.
  pub apply-both :
      (w : Work V) (f : ℕ → V)
      → w.one ≢ w.two
      → run_edits w.edits (f w.one) (f w.two) ≡ (apply w f w.one, apply w f w.two)
  unfolding apply
  apply-both w f ne =
      ground (arith, ==_iff w.one w.two, ==_iff w.two w.one, ==_iff w.one w.one, ==_iff w.two w.two)

  pub apply-one :
      (w : Work V) (f : ℕ → V) (a : ℕ)
      → (w.one ≡ a) × (w.two ≡ a)
      → run_edits_aliased w.edits (f a) ≡ apply w f a
  unfolding apply
  apply-one w f a h = ground (arith, ==_iff w.one w.two, ==_iff w.one a)

  pub taken_over-other :
      {m m' : ℕ → RwLock} {p t : Stage} (mv : Move m p m' t) (w : Work V) (initial : ℕ → V)
      (done : List (Work V)) (x : ℕ)
      → Matches t w
      → changes t x ≡ false
      → replay initial (taken_over mv w done) x ≡ replay initial done x
  unfolding replay
  taken_over-other (take_only {a} g) w initial done x mt unchanged =
      apply-other w (replay initial done) x (λ e. ground (arith, ==_iff a x))
        (λ e. ground (arith, ==_iff a x))
  taken_over-other (take_second {a} {b} g) w initial done x mt unchanged =
      apply-other w (replay initial done) x (λ e. ground (arith, ==_iff a x, ==_iff b x))
        (λ e. ground (arith, ==_iff a x, ==_iff b x))
  taken_over-other (call_only a) w initial done x mt unchanged = refl
  taken_over-other (call_pair a b ne) w initial done x mt unchanged = refl
  taken_over-other (take_first g) w initial done x mt unchanged = refl
  taken_over-other free_second w initial done x mt unchanged = refl
  taken_over-other free_last w initial done x mt unchanged = refl

  pub Move-Matches :
      {m m' : ℕ → RwLock} {p t : Stage} (mv : Move m p m' t) (before after : Work V)
      → Matches p before
      → Allows mv before after
      → Matches t after
  Move-Matches (call_only a) before after mt al = al
  Move-Matches (call_pair a b ne) before after mt al = ground arith
  Move-Matches (take_only g) before after mt al = ground arith
  Move-Matches (take_first g) before after mt al = ground arith
  Move-Matches (take_second g) before after mt al = ground arith
  Move-Matches free_second before after mt al = ground arith
  Move-Matches free_last before after mt al = tt

  -- One update, through either reference.
  pub references-changes :
      (p : Stage) (w : Work V)
      → CanEdit p
      → Matches p w
      → (changes p w.one ≡ true) × (changes p w.two ≡ true)
  references-changes (leaving a) w at mt = ground (arith, ==_iff a w.one, ==_iff a w.two)
  references-changes (inside a b) w at mt =
      ground (arith, ==_iff a w.one, ==_iff a w.two, ==_iff b w.one, ==_iff b w.two)
  references-changes _ w at mt = cc

  pub edits-Matches :
      (p : Stage) (w : Work V) (es : List (Edit V))
      → Matches p w
      → Matches p (record w { edits = es })
  edits-Matches outside w es mt = tt
  edits-Matches _ w es mt = mt

  references_differ : (a b : ℕ) (w : Work V) → OnBoth a b w → w.one ≢ w.two
  references_differ a b w mt = λ e. ground (arith, mt)

  pub edit_first-InFlight :
      (f : V → V) (es : List (Edit V)) (p : Stage) (w : Work V) (v r : ℕ → V)
      → CanEdit p
      → Matches p w
      → w.edits ≡ first f ∷ es
      → InFlight p w v r
      → InFlight p (record w { edits = es }) (update v w.one (f (v w.one))) r
  unfolding run_edits run_edits_aliased
  edit_first-InFlight f es (leaving a) w v r at mt e fl =
      rw (mt.0, (==_iff a a).1 refl) (rw (e, run_edits_aliased) at fl)
  edit_first-InFlight f es (inside a b) w v r at mt e fl =
      let ne = references_differ a b w mt in
      rw ((==_iff w.one w.one).1 refl, ==_false w.one w.two ne) (rw (e, run_edits) at fl)
  edit_first-InFlight f es _ w v r at mt e fl = tt

  pub edit_second-InFlight :
      (f : V → V) (es : List (Edit V)) (p : Stage) (w : Work V) (v r : ℕ → V)
      → CanEdit p
      → Matches p w
      → w.edits ≡ second f ∷ es
      → InFlight p w v r
      → InFlight p (record w { edits = es }) (update v w.two (f (v w.two))) r
  unfolding run_edits run_edits_aliased
  edit_second-InFlight f es (leaving a) w v r at mt e fl =
      rw (mt.1, (==_iff a a).1 refl) (rw (e, run_edits_aliased) at fl)
  edit_second-InFlight f es (inside a b) w v r at mt e fl =
      let ne = references_differ a b w mt in
      rw ((==_iff w.two w.two).1 refl, ==_false w.two w.one (λ q. ne (sym q)))
        (rw (e, run_edits) at fl)
  edit_second-InFlight f es _ w v r at mt e fl = tt
