-- ===== src/Tests/Server.antt =====
-- A server that keeps its objects in a list, the newest first, and keeps to the contract of `IsServer`.
use ingress_nginx_gateway_br.Common.{
  some_inj, ◌≡◌, refl, sym, ◌∙◌, ap, subst, ◌⊎◌, inl, inr, Bool, true, false, not, Option, none,
  some, List, [], ◌∷◌, if◌then◌else◌, keep, Memᴰ, Mem-keep, Bool-cases, ◌==◌, eq_iff, eq_refl,
  arith, none-some,
}
use ingress_nginx_gateway_br.Controller.Observed.{Found, found, not_found}
use ingress_nginx_gateway_br.Controller.Cluster.{
  ObjectKey, object_key_key, Object, Client, IsServer, deleted, is_listed,
}

abbrev pub shown : List Object → ObjectKey → Option Object
shown [] key = none
shown (object ∷ objects) key = if object.key == key then some object else shown objects key

unfoldable pub visible : List Object → List Object
visible [] = []
visible (object ∷ objects) =
    object ∷ keep (λ other. not (object.key == other.key)) (visible objects)

abbrev found_or : Option Object → Found Object
found_or none = not_found
found_or (some object) = found object

abbrev pub list_server : Client (List Object)
list_server = record {
  get = λ s key. found_or (shown s key);
  list = λ s kind namespace wanted. some (keep (is_listed kind namespace wanted) (visible s));
  patch = λ s object. (true, object ∷ s);
  delete = λ s key. (deleted, keep (λ object. not (object.key == key)) s);
}

shown_key :
    (s : List Object) (key : ObjectKey) (object : Object)
    → shown s key ≡ some object
    → object.key ≡ key
shown_key [] key object stands = elim (none-some stands) [ ]
shown_key (first ∷ s) key object stands = elim (Bool-cases (first.key == key)) [
  | inl same ↦ ground (arith, stands, same, eq_iff first.key key)
  | inr other ↦ shown_key s key object (ground (arith, stands, other))
]

Mem-cases :
    (item first : Object) (items : List Object)
    → Memᴰ item (first ∷ items)
    → (item ≡ first) ⊎ Memᴰ item items
Mem-cases item first items (Memᴰ.head e) = inl e
Mem-cases item first items (Memᴰ.tail m) = inr m

keep-Mem :
    (p : Object → Bool) (item : Object) (items : List Object)
    → Memᴰ item (keep p items)
    → Memᴰ item items × (p item ≡ true)
unfolding keep
keep-Mem p item [] member = elim member [ ]
keep-Mem p item (first ∷ items) member = elim (Bool-cases (p first)) [
  | inl kept ↦
      elim (Mem-cases item first (keep p items)
        (subst (λ xs. Memᴰ item xs) (rw kept refl) member)) [
          | inl e ↦ (Memᴰ.head e, ap p e ∙ kept)
          | inr m ↦ let (there, passes) = keep-Mem p item items m in (Memᴰ.tail there, passes)
        ]
  | inr dropped ↦
      let (there, passes) =
        keep-Mem p item items (subst (λ xs. Memᴰ item xs) (rw dropped refl) member) in
      (Memᴰ.tail there, passes)
]

visible-shown :
    (s : List Object) (item : Object) → Memᴰ item (visible s) → shown s item.key ≡ some item
unfolding visible
visible-shown [] item member = elim member [ ]
visible-shown (first ∷ s) item (Memᴰ.head e) = ground (arith, e, eq_refl first.key)
visible-shown (first ∷ s) item (Memᴰ.tail m) =
    let (there, other) = keep-Mem (λ x. not (first.key == x.key)) item (visible s) m in
    ground (arith, visible-shown s item there, other)

shown-visible :
    (s : List Object) (key : ObjectKey) (object : Object)
    → shown s key ≡ some object
    → Memᴰ object (visible s)
unfolding visible
shown-visible [] key object stands = elim (none-some stands) [ ]
shown-visible (first ∷ s) key object stands = elim (Bool-cases (first.key == key)) [
  | inl same ↦ Memᴰ.head (ground (arith, stands, same))
  | inr other ↦
      let there : shown s key ≡ some object = ground (arith, stands, other) in
      Memᴰ.tail (
        Mem-keep (λ x. not (first.key == x.key)) object (visible s)
          (shown-visible s key object there) (ground (arith, shown_key s key object there, other)))
]

shown-keep_other :
    (s : List Object) (key other : ObjectKey)
    → (key == other) ≡ false
    → shown (keep (λ object. not (object.key == key)) s) other ≡ shown s other
unfolding keep
shown-keep_other [] key other different = refl
shown-keep_other (first ∷ s) key other different = elim (Bool-cases (first.key == key)) [
  | inl gone ↦ rw gone (
      shown-keep_other s key other different
      ∙ ground (arith, gone, different, eq_iff first.key key))
  | inr kept ↦ ground (arith, kept, shown-keep_other s key other different)
]

shown-keep :
    (s : List Object) (key : ObjectKey)
    → shown (keep (λ object. not (object.key == key)) s) key ≡ none
unfolding keep
shown-keep [] key = refl
shown-keep (first ∷ s) key = elim (Bool-cases (first.key == key)) [
  | inl gone ↦ rw gone (shown-keep s key)
  | inr kept ↦ ground (arith, kept, shown-keep s key)
]

-- Its cache is never behind.
pub list_server-IsServer : IsServer list_server shown shown
list_server-IsServer = record {
  get_cached = λ s key object stands. inl (ap found_or stands);
  list_sound = λ s kind namespace wanted items item listed member.
      let here : Memᴰ item (keep (is_listed kind namespace wanted) (visible s)) =
        subst (λ xs. Memᴰ item xs) (sym (some_inj listed)) member in
      let (there, passes) = keep-Mem (is_listed kind namespace wanted) item (visible s) here in
      (passes, visible-shown s item there);
  list_complete = λ s kind namespace wanted items key object listed stands matching.
      subst (λ xs. Memᴰ object xs) (some_inj listed)
        (Mem-keep (is_listed kind namespace wanted) object (visible s)
          (shown-visible s key object stands) matching);
  patch_other = λ s object key other. (rw other refl, inr refl);
  delete_other = λ s key other different. (shown-keep_other s key other different, inr refl);
  delete_self = λ s key. inl (shown-keep s key);
  delete_done = λ s key done. shown-keep s key;
}

-- The functions above, for the tests.
unfoldable pub server_functions : Unit {0}
unfolding visible keep
server_functions = tt
