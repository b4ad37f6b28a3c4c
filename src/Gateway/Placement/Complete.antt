-- ===== src/Gateway/Placement/Complete.antt =====
-- Every listener is placed, or reported as unplaced; with ListenerSets each is placed, since the search
-- for a set with room finds one.
use ingress_nginx_gateway_br.Common.{
  ℕ, suc, ◌+◌, ◌≤◌, ◌≡◌, refl, sym, ap, ◌∙◌, subst, ◌⊎◌, inl, inr, Bool, true, false, Option, none,
  some, List, [], ◌∷◌, Memᴰ, All, All-map, All-mem, length, arith, insert, has_key, lookup,
  lookup-insert, lookup-insert_self, Option-cases, sort_by-All, length-sort_by,
}
use ingress_nginx_gateway_br.Text.{Text, text_key}
use ingress_nginx_gateway_br.Gateway.{ProjectedListener, ManagedGatewayOptions}
use ingress_nginx_gateway_br.Gateway.Placement.{
  Placing, no_placing, try_place, try_wanted, usable, pass, first_free, or_same, place_anywhere,
  place_listeners, by_hostname, sticky_pass, inherited_pass, final_pass,
}
use ingress_nginx_gateway_br.Gateway.Placement.Spread.{
  Spread, first_free-room, Spread-no_placing, try_place-Spread, pass-Spread,
}
use ingress_nginx_gateway_br.Gateway.Placement.Passes.{
  pass-keeps, place_anywhere-keeps, try_place-some, try_place-room, pass-hit, pass-miss,
  place_anywhere-hit, place_anywhere-set, place_anywhere-unset,
}

abbrev IsPlaced : Placing → ProjectedListener → Type 0
IsPlaced s l = has_key l.hostname s.placed ≡ true

has_key-insert :
    (h k : Text) (j : ℕ) (m : List (Text × ℕ))
    → has_key h m ≡ true
    → has_key h (insert k j m) ≡ true
unfolding has_key
has_key-insert h k j m e = ground (arith, lookup-insert k h j m)

has_key-insert_self : (k : Text) (j : ℕ) (m : List (Text × ℕ)) → has_key k (insert k j m) ≡ true
unfolding has_key
has_key-insert_self k j m = rw (lookup-insert_self k j m, has_key)

try_place-IsPlaced :
    (overflow : Bool) (l k : ProjectedListener) (idx : ℕ) (s s' : Placing)
    → try_place overflow k idx s ≡ some s'
    → IsPlaced s l
    → IsPlaced s' l
try_place-IsPlaced overflow l k idx s s' e h =
    let (u, room, same, more) = try_place-some overflow k idx s s' e in
    rw same (has_key-insert l.hostname k.hostname idx s.placed h)

try_place-IsPlaced_self :
    (overflow : Bool) (l : ProjectedListener) (idx : ℕ) (s s' : Placing)
    → try_place overflow l idx s ≡ some s'
    → IsPlaced s' l
try_place-IsPlaced_self overflow l idx s s' e =
    let (u, room, same, more) = try_place-some overflow l idx s s' e in
    rw same (has_key-insert_self l.hostname idx s.placed)

try_wanted-IsPlaced_self :
    (overflow : Bool) (l : ProjectedListener) (wanted : Option ℕ) (s s' : Placing)
    → try_wanted overflow l wanted s ≡ some s'
    → IsPlaced s' l
try_wanted-IsPlaced_self overflow l none s s' e = cc
try_wanted-IsPlaced_self overflow l (some idx) s s' e =
    try_place-IsPlaced_self overflow l idx s s' e

All-Unit : (ls : List ProjectedListener) → All (λ l. Unit {0}) ls
All-Unit [] = tt
All-Unit (l ∷ ls) = (tt, All-Unit ls)

pass-IsPlaced :
    (overflow : Bool) (l : ProjectedListener) (wanted : ProjectedListener → Option ℕ) (s : Placing)
    (ls : List ProjectedListener)
    → IsPlaced s l
    → IsPlaced (pass overflow wanted s ls).0 l
pass-IsPlaced overflow l wanted s ls =
    pass-keeps overflow (λ k. Unit) (λ s. IsPlaced s l)
      (λ k idx s s' _. try_place-IsPlaced overflow l k idx s s') wanted s ls (All-Unit ls)

place_anywhere-IsPlaced :
    (overflow : Bool) (l : ProjectedListener) (fuel : ℕ) (s : Placing) (ls : List ProjectedListener)
    → IsPlaced s l
    → IsPlaced (place_anywhere overflow fuel s ls).0 l
place_anywhere-IsPlaced overflow l fuel s ls =
    place_anywhere-keeps overflow (λ k. Unit) (λ s. IsPlaced s l)
      (λ k idx s s' _. try_place-IsPlaced overflow l k idx s s') fuel s ls (All-Unit ls)

-- Placed in the end, or among those left over.
abbrev IsCovered : Placing × List ProjectedListener → ProjectedListener → Type 0
IsCovered r l = IsPlaced r.0 l ⊎ Memᴰ l r.1

IsCovered-tail :
    (s : Placing) (k : ProjectedListener) (rest : List ProjectedListener) (l : ProjectedListener)
    → IsCovered (s, rest) l
    → IsCovered (s, k ∷ rest) l
IsCovered-tail s k rest l (inl h) = inl h
IsCovered-tail s k rest l (inr m) = inr (Memᴰ.tail m)

pass-IsCovered :
    (overflow : Bool) (wanted : ProjectedListener → Option ℕ) (s : Placing)
    (ls : List ProjectedListener)
    → All (IsCovered (pass overflow wanted s ls)) ls
pass-IsCovered overflow wanted s [] = tt
pass-IsCovered overflow wanted s (l ∷ ls) =
    elim (Option-cases (try_wanted overflow l (wanted l) s)) [
      | inl e ↦
          let (s', rest) = pass overflow wanted s ls in
          subst (λ r. All (IsCovered r) (l ∷ ls)) (sym (pass-miss overflow wanted s l ls e))
            (
              inr (Memᴰ.head refl),
              All-map _ _ ls (IsCovered-tail s' l rest) (pass-IsCovered overflow wanted s ls),
            )
      | inr (s', e) ↦
          subst (λ r. All (IsCovered r) (l ∷ ls)) (sym (pass-hit overflow wanted s l ls s' e))
            (
              inl (
                  pass-IsPlaced overflow l wanted s' ls
                    (try_wanted-IsPlaced_self overflow l (wanted l) s s' e)),
              pass-IsCovered overflow wanted s' ls,
            )
    ]

usable_set : (idx : ℕ) → usable true idx ≡ true
unfolding usable
usable_set idx = ground arith

complete-step :
    (overflow : Bool) (fuel : ℕ) (s s' : Placing) (l : ProjectedListener)
    (ls : List ProjectedListener)
    → place_anywhere overflow fuel s (l ∷ ls) ≡ place_anywhere overflow fuel s' ls
    → IsPlaced s' l
    → All (IsCovered (place_anywhere overflow fuel s' ls)) ls
    → All (IsCovered (place_anywhere overflow fuel s (l ∷ ls))) (l ∷ ls)
complete-step overflow fuel s s' l ls e here later =
    subst (λ r. All (IsCovered r) (l ∷ ls)) (sym e)
      (inl (place_anywhere-IsPlaced overflow l fuel s' ls here), later)

-- The listener goes to the first set with room, which the search finds.
set_found :
    (fuel n : ℕ) (s : Placing) (l : ProjectedListener) (ls : List ProjectedListener)
    → Spread n s
    → n ≤ fuel
    → try_place true l 0 s ≡ none
    → (s' : Placing) × (idx : ℕ) × (try_place true l idx s ≡ some s')
      × (place_anywhere true fuel s (l ∷ ls) ≡ place_anywhere true fuel s' ls)
set_found fuel n s l ls h le e =
    let idx = first_free fuel s.counts 1 in
    let found =
      try_place-room true l idx s (usable_set idx)
        (first_free-room fuel s.counts 1 (omega (arith, h 1 (suc fuel)))) in
    (
      _,
      idx,
      found,
      place_anywhere-set fuel s l ls e ∙ ap (λ o. place_anywhere true fuel (or_same s o) ls) found,
    )

-- With ListenerSets the third pass places every listener: `fuel` tries are enough.
place_anywhere-set_complete :
    (fuel n : ℕ) (s : Placing) (ls : List ProjectedListener)
    → Spread n s
    → n + length ls ≤ suc fuel
    → ((place_anywhere true fuel s ls).1 ≡ []) × All (IsCovered (place_anywhere true fuel s ls)) ls
unfolding place_anywhere
place_anywhere-set_complete fuel n s [] h le = (refl, tt)
place_anywhere-set_complete fuel n s (l ∷ ls) h le = elim (Option-cases (try_place true l 0 s)) [
  | inl e ↦
      let (s', idx, found, same) = set_found fuel n s l ls h (omega arith) e in
      let (none_left, later) =
        place_anywhere-set_complete fuel (suc n) s' ls (try_place-Spread true l idx s s' n found h)
          (omega arith) in
      (
        ap (λ r. r.1) same ∙ none_left,
        complete-step true fuel s s' l ls same (try_place-IsPlaced_self true l idx s s' found)
            later,
      )
  | inr (s', e) ↦
      let same = place_anywhere-hit fuel s l ls true s' e in
      let (none_left, later) =
        place_anywhere-set_complete fuel (suc n) s' ls (try_place-Spread true l 0 s s' n e h)
          (omega arith) in
      (
        ap (λ r. r.1) same ∙ none_left,
        complete-step true fuel s s' l ls same (try_place-IsPlaced_self true l 0 s s' e) later,
      )
]

place_anywhere-unset_IsCovered :
    (fuel : ℕ) (s : Placing) (ls : List ProjectedListener)
    → All (IsCovered (place_anywhere false fuel s ls)) ls
place_anywhere-unset_IsCovered fuel s [] = tt
place_anywhere-unset_IsCovered fuel s (l ∷ ls) = elim (Option-cases (try_place false l 0 s)) [
  | inl e ↦
      let (s', rest) = place_anywhere false fuel s ls in
      subst (λ r. All (IsCovered r) (l ∷ ls)) (sym (place_anywhere-unset fuel s l ls e))
        (
          inr (Memᴰ.head refl),
          All-map _ _ ls (IsCovered-tail s' l rest) (place_anywhere-unset_IsCovered fuel s ls),
        )
  | inr (s', e) ↦
      complete-step false fuel s s' l ls (place_anywhere-hit fuel s l ls false s' e)
        (try_place-IsPlaced_self false l 0 s s' e) (place_anywhere-unset_IsCovered fuel s' ls)
]

place_anywhere-IsCovered :
    (overflow : Bool) (fuel n : ℕ) (s : Placing) (ls : List ProjectedListener)
    → Spread n s
    → n + length ls ≤ suc fuel
    → All (IsCovered (place_anywhere overflow fuel s ls)) ls
place_anywhere-IsCovered true fuel n s ls h le = (place_anywhere-set_complete fuel n s ls h le).1
place_anywhere-IsCovered false fuel n s ls h le = place_anywhere-unset_IsCovered fuel s ls

place_anywhere-none_left :
    (overflow : Bool) (fuel n : ℕ) (s : Placing) (ls : List ProjectedListener)
    → overflow ≡ true
    → Spread n s
    → n + length ls ≤ suc fuel
    → (place_anywhere overflow fuel s ls).1 ≡ []
place_anywhere-none_left true fuel n s ls set h le =
    (place_anywhere-set_complete fuel n s ls h le).0
place_anywhere-none_left false fuel n s ls set h le = cc

IsCovered-through :
    (r r' : Placing × List ProjectedListener) (ls : List ProjectedListener)
    → ((l : ProjectedListener) → IsPlaced r.0 l → IsPlaced r'.0 l)
    → All (IsCovered r') r.1
    → All (IsCovered r) ls
    → All (IsCovered r') ls
IsCovered-through r r' ls later rest h =
    All-map (IsCovered r) (IsCovered r') ls
      (λ l. elim [
        | inl placed ↦ inl (later l placed)
        | inr left ↦ All-mem (IsCovered r') left rest
      ])
      h

-- What the first two passes place, and what they leave, add up to the listeners.
inherited_pass-Spread :
    (listeners : List ProjectedListener) (options : ManagedGatewayOptions)
    → (m : ℕ) × Spread m (inherited_pass listeners options).0
      × (m + length (inherited_pass listeners options).1 ≡ length listeners)
inherited_pass-Spread listeners options =
    let (m1, h1, sum1) =
      pass-Spread options.listener_set_overflow _ 0 no_placing _ Spread-no_placing in
    let (m2, h2, sum2) =
      pass-Spread options.listener_set_overflow _ m1 (sticky_pass listeners options).0 _ h1 in
    (m2, h2, omega (arith, length-sort_by by_hostname listeners))

final_pass-IsCovered :
    (listeners : List ProjectedListener) (options : ManagedGatewayOptions)
    → All
        (IsCovered (
          place_anywhere options.listener_set_overflow
            (suc (length listeners))
            (inherited_pass listeners options).0
            (inherited_pass listeners options).1))
        (inherited_pass listeners options).1
final_pass-IsCovered listeners options =
    let (m, h, sum) = inherited_pass-Spread listeners options in
    place_anywhere-IsCovered options.listener_set_overflow (suc (length listeners)) m _ _ h
      (omega arith)

-- Every listener is placed or reported as unplaced.
pub place_listeners-IsCovered :
    (listeners : List ProjectedListener) (options : ManagedGatewayOptions)
    → All
        (λ l.
          (has_key l.hostname (place_listeners listeners options).0 ≡ true)
          ⊎ Memᴰ l (place_listeners listeners options).1)
        listeners
unfolding place_listeners
place_listeners-IsCovered listeners options =
    sort_by-All by_hostname (IsCovered (final_pass listeners options)) listeners (
      IsCovered-through (sticky_pass listeners options) (final_pass listeners options) _
        (λ l h. place_anywhere-IsPlaced _ l _ _ _ (pass-IsPlaced _ l _ _ _ h))
        (IsCovered-through (inherited_pass listeners options) (final_pass listeners options) _
          (λ l h. place_anywhere-IsPlaced _ l _ _ _ h) (final_pass-IsCovered listeners options)
          (pass-IsCovered _ _ _ _))
        (pass-IsCovered _ _ _ _))

-- No listener is reported as unplaced.
place_listeners-none_left :
    (listeners : List ProjectedListener) (options : ManagedGatewayOptions)
    → options.listener_set_overflow ≡ true
    → (place_listeners listeners options).1 ≡ []
unfolding place_listeners
place_listeners-none_left listeners options set =
    let (m, h, sum) = inherited_pass-Spread listeners options in
    place_anywhere-none_left options.listener_set_overflow (suc (length listeners)) m _ _ set h
      (omega arith)

has_key-found :
    (h : Text) (m : List (Text × ℕ)) → has_key h m ≡ true → (idx : ℕ) × (lookup h m ≡ some idx)
unfolding has_key
has_key-found h m known = elim (Option-cases (lookup h m)) [
  | inl missing ↦ ground (arith, known, missing)
  | inr (idx, here) ↦ (idx, here)
]

-- Where the cluster has the ListenerSet API, every listener has a place: the search finds the Gateway or a
-- ListenerSet with room for it.
pub place_listeners-overflow :
    (listeners : List ProjectedListener) (options : ManagedGatewayOptions) (l : ProjectedListener)
    → options.listener_set_overflow ≡ true
    → Memᴰ l listeners
    → (idx : ℕ) × (lookup l.hostname (place_listeners listeners options).0 ≡ some idx)
place_listeners-overflow listeners options l set member =
    elim (All-mem _ member (place_listeners-IsCovered listeners options)) [
      | inl placed ↦ has_key-found l.hostname _ placed
      | inr left ↦
          elim (subst (λ ls. Memᴰ l ls) (place_listeners-none_left listeners options set) left) [ ]
    ]
