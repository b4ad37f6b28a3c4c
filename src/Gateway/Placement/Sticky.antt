-- ===== src/Gateway/Placement/Sticky.antt =====
-- A listener keeps its previous parent as long as the previous placement fits the parents.
use ingress_nginx_gateway_br.Common.{
  ℕ, ◌+◌, ◌≤◌, ◌<◌, ◌≡◌, ◌≢◌, sym, ◌∙◌, subst, inl, inr, Bool, true, Option, none, some, List, [],
  ◌∷◌, Memᴰ, All, All-map, All-mem, sort_by-All, nat_beq, if◌then◌else◌, arith, insert, lookup,
  lookup-insert, lookup-insert_self, Bool-cases, Option-cases, total, total-sort_by, sort_by,
}
use ingress_nginx_gateway_br.Text.{Text, text_key, text_eq, text_eq_iff}
use ingress_nginx_gateway_br.Gateway.{
  ListenerPlacement, Placements, ProjectedListener, ManagedGatewayOptions,
}
use ingress_nginx_gateway_br.Gateway.Placement.{
  Placing, no_placing, try_place, try_wanted, capacity, usable, increment, pass, place_listeners,
  by_hostname, previous_index, previous_placement, sticky_pass,
}
use ingress_nginx_gateway_br.Gateway.Placement.Passes.{
  pass-keeps, place_anywhere-keeps, pass-All, try_place-some, try_place-room, pass-hit, pass-miss,
}
use ingress_nginx_gateway_br.Gateway.Placement.Capacity.{increment_lem, room_at}

-- One if the wanted parent is `i`.
abbrev pub wants : ℕ → Option ℕ → ℕ
wants i none = 0
wants i (some idx) = if nat_beq idx i then 1 else 0

-- How many of the listeners stood at parent `i`.
unfoldable pub demand : ℕ → Placements → List ProjectedListener → ℕ
demand i current ls = total (λ l. wants i (previous_placement current l)) ls

room_at-usable : (overflow : Bool) (i : ℕ) → 0 < room_at overflow i → usable overflow i ≡ true
unfolding usable
room_at-usable overflow i h = ground arith

room_at-capacity : (overflow : Bool) (i : ℕ) → room_at overflow i ≤ capacity i
unfolding capacity
room_at-capacity overflow i = ground arith

none-some : (idx : ℕ) → none ≡ some idx → ⊥
none-some idx e = cc

previous_found :
    (current : Placements) (l : ProjectedListener) (p : ListenerPlacement)
    → lookup l.hostname current ≡ some p
    → previous_placement current l ≡ some p.listener_set
unfolding previous_placement
previous_found current l p found = rw (found, previous_index)

module _ (overflow : Bool) (current : Placements) where
  -- The wanted parent has room, if the counts and the demand left fit.
  abbrev Fits : Placing → List ProjectedListener → Type 0
  Fits s ls = (i : ℕ) → s.counts i + demand i current ls ≤ room_at overflow i

  Fits-more :
      (s : Placing) (l : ProjectedListener) (ls : List ProjectedListener) (idx i : ℕ)
      → Fits s (l ∷ ls)
      → previous_placement current l ≡ some idx
      → s.counts i + (wants i (some idx) + demand i current ls) ≤ room_at overflow i
  unfolding demand total
  Fits-more s l ls idx i fits e =
      subst (λ o. s.counts i + (wants i o + demand i current ls) ≤ room_at overflow i) e (fits i)

  Fits-miss :
      (s : Placing) (l : ProjectedListener) (ls : List ProjectedListener)
      → Fits s (l ∷ ls)
      → Fits s ls
  unfolding demand total
  Fits-miss s l ls fits i = omega (arith, fits i)

  Fits-place :
      (s : Placing) (l : ProjectedListener) (ls : List ProjectedListener) (idx : ℕ)
      → Fits s (l ∷ ls)
      → previous_placement current l ≡ some idx
      → (s' : Placing) × (try_wanted overflow l (previous_placement current l) s ≡ some s')
        × (lookup l.hostname s'.placed ≡ some idx)
        × Fits s' ls
  Fits-place s l ls idx fits e =
      let here = Fits-more s l ls idx idx fits e in
      (
        record { placed = insert l.hostname idx s.placed; counts = increment s.counts idx },
        rw e (
            try_place-room overflow l idx s (room_at-usable overflow idx (ground arith))
              (ground (arith, room_at-capacity overflow idx))),
        lookup-insert_self l.hostname idx s.placed,
        λ i. ground (arith, increment_lem s.counts idx i, Fits-more s l ls idx i fits e),
      )

  none_places :
      (l : ProjectedListener) (s s' : Placing)
      → previous_placement current l ≡ none
      → try_wanted overflow l (previous_placement current l) s ≡ some s'
      → ⊥
  none_places l s s' gone placed =
      let h : none ≡ some s' = subst (λ o. try_wanted overflow l o s ≡ some s') gone placed in cc

  agrees :
      (h : Text) (idx : ℕ) (s : Placing) (l : ProjectedListener) (j : ℕ)
      → previous_index current h ≡ some idx
      → lookup h s.placed ≡ some idx
      → previous_placement current l ≡ some j
      → lookup h (insert l.hostname j s.placed) ≡ some idx
  unfolding previous_placement
  agrees h idx s l j prev e found = elim (Bool-cases (text_eq l.hostname h)) [
    | inl same ↦
        let e' = (text_eq_iff l.hostname h).0 same in
        let f : previous_index current h ≡ some j = rw e' at found in
        rw (lookup-insert l.hostname h j s.placed, same) (sym f ∙ prev)
    | inr other ↦ rw (lookup-insert l.hostname h j s.placed, other) e
  ]

  wanted_stays :
      (h : Text) (idx : ℕ) (s s' : Placing) (l : ProjectedListener)
      → previous_index current h ≡ some idx
      → lookup h s.placed ≡ some idx
      → try_wanted overflow l (previous_placement current l) s ≡ some s'
      → lookup h s'.placed ≡ some idx
  wanted_stays h idx s s' l prev e placed = elim (Option-cases (previous_placement current l)) [
    | inl gone ↦ absurd (none_places l s s' gone placed)
    | inr (j, found) ↦
        let (u, room, same, more) =
          try_place-some overflow l j s s'
            (subst (λ o. try_wanted overflow l o s ≡ some s') found placed) in
        rw same (agrees h idx s l j prev e found)
  ]

  -- A placement that agrees with the previous one survives the rest of the first pass.
  pass-stays :
      (h : Text) (idx : ℕ) (s : Placing) (ls : List ProjectedListener)
      → previous_index current h ≡ some idx
      → lookup h s.placed ≡ some idx
      → lookup h (pass overflow (previous_placement current) s ls).0.placed ≡ some idx
  unfolding pass
  pass-stays h idx s [] prev e = e
  pass-stays h idx s (l ∷ ls) prev e =
      elim (Option-cases (try_wanted overflow l (previous_placement current l) s)) [
        | inl missed ↦
            rw (pass-miss overflow (previous_placement current) s l ls missed)
              (pass-stays h idx s ls prev e)
        | inr (s', placed) ↦
            rw (pass-hit overflow (previous_placement current) s l ls s' placed)
              (pass-stays h idx s' ls prev (wanted_stays h idx s s' l prev e placed))
      ]

  keeps_here :
      (s : Placing) (l : ProjectedListener) (ls : List ProjectedListener) (idx : ℕ)
      → previous_placement current l ≡ some idx
      → lookup l.hostname s.placed ≡ some idx
      → (j : ℕ) → previous_placement current l ≡ some j
      → lookup l.hostname (pass overflow (previous_placement current) s ls).0.placed ≡ some j
  unfolding previous_placement
  keeps_here s l ls idx found here j e = pass-stays l.hostname j s ls e (here ∙ (sym found ∙ e))

  -- What a listener keeps: its previous parent, if it had one.
  abbrev Keeps : List (Text × ℕ) → ProjectedListener → Type 0
  Keeps placed l =
      (idx : ℕ) → previous_placement current l ≡ some idx → lookup l.hostname placed ≡ some idx

  abbrev IsKept : Placing × List ProjectedListener → List ProjectedListener → Type 0
  IsKept r ls = All (Keeps r.0.placed) ls × All (λ l. previous_placement current l ≡ none) r.1

  missed_none :
      (l : ProjectedListener) (s : Placing)
      → previous_placement current l ≡ none
      → try_wanted overflow l (previous_placement current l) s ≡ none
  missed_none l s e = rw e

  pass-IsKept :
      (s : Placing) (ls : List ProjectedListener)
      → Fits s ls
      → IsKept (pass overflow (previous_placement current) s ls) ls
  unfolding pass
  pass-IsKept s [] fits = (tt, tt)
  pass-IsKept s (l ∷ ls) fits = elim (Option-cases (previous_placement current l)) [
    | inl gone ↦
        let (kept, new) = pass-IsKept s ls (Fits-miss s l ls fits) in
        subst (λ r. IsKept r (l ∷ ls))
          (sym (pass-miss overflow (previous_placement current) s l ls (missed_none l s gone)))
          ((λ idx e. absurd (none-some idx (sym gone ∙ e)), kept), (gone, new))
    | inr (idx, found) ↦
        let (s', placed, here, fits') = Fits-place s l ls idx fits found in
        let (kept, new) = pass-IsKept s' ls fits' in
        subst (λ r. IsKept r (l ∷ ls))
          (sym (pass-hit overflow (previous_placement current) s l ls s' placed))
          ((keeps_here s' l ls idx found here, kept), new)
  ]

module _ (overflow : Bool) (h : Text) (idx : ℕ) where
  -- Listeners of other hostnames leave an entry alone.
  place_other :
      (l : ProjectedListener) (j : ℕ) (s s' : Placing)
      → l.hostname ≢ h
      → try_place overflow l j s ≡ some s'
      → lookup h s.placed ≡ some idx
      → lookup h s'.placed ≡ some idx
  place_other l j s s' ne e found =
      let (u, room, same, more) = try_place-some overflow l j s s' e in
      rw same (ground (arith, lookup-insert l.hostname h j s.placed, text_eq_iff l.hostname h))

new_ne :
    (current : Placements) (h : Text) (p : ListenerPlacement) (l : ProjectedListener)
    → lookup h current ≡ some p
    → previous_placement current l ≡ none
    → l.hostname ≢ h
unfolding previous_placement
new_ne current h p l found gone same =
    let e : previous_index current l.hostname ≡ some p.listener_set =
      rw (same, found, previous_index) in
    none-some p.listener_set (sym gone ∙ e)

-- Where the previous placement of these listeners fits the parents, every listener that had a parent
-- keeps it, whatever the other listeners are.
pub place_listeners-sticky :
    (listeners : List ProjectedListener) (options : ManagedGatewayOptions) (l : ProjectedListener)
    (p : ListenerPlacement)
    → ((i : ℕ)
        → demand i options.current_placements listeners ≤ room_at options.listener_set_overflow i)
    → Memᴰ l listeners
    → lookup l.hostname options.current_placements ≡ some p
    → lookup l.hostname (place_listeners listeners options).0 ≡ some p.listener_set
unfolding place_listeners demand
place_listeners-sticky listeners options l p fits member found =
    let overflow = options.listener_set_overflow in
    let current = options.current_placements in
    let (kept, new) = pass-IsKept overflow current no_placing (sort_by by_hostname listeners) (λ i.
      omega (
        arith,
        fits i,
        total-sort_by (λ k. wants i (previous_placement current k)) by_hostname listeners,
      )) in
    let others : All (λ k. k.hostname ≢ l.hostname) (sticky_pass listeners options).1 =
      All-map _ _ _ (λ k. new_ne current l.hostname p k found) new in
    let first : lookup l.hostname (sticky_pass listeners options).0.placed ≡ some p.listener_set =
      All-mem (Keeps overflow current _) member (sort_by-All by_hostname _ listeners kept)
        p.listener_set (previous_found current l p found) in
    place_anywhere-keeps overflow (λ k. k.hostname ≢ l.hostname)
      (λ s. lookup l.hostname s.placed ≡ some p.listener_set)
      (place_other overflow l.hostname p.listener_set) _ _ _
      (pass-All overflow (λ k. k.hostname ≢ l.hostname) _ _ _ others)
      (pass-keeps overflow (λ k. k.hostname ≢ l.hostname)
        (λ s. lookup l.hostname s.placed ≡ some p.listener_set)
        (place_other overflow l.hostname p.listener_set) _ _ _ others first)
