-- ===== src/Osmobj/Sorting.antt =====
-- The sorting of the objects by `std::sort`, whatever it does with equal ones (src/osmobj.cpp).
use mathlib.Core.List.{Mem, Perm, eq-or-mem_of_mem-cons, mem-cons_self, not-mem-nil}
use mathlib.Core.List.Perm
use mathlib.Core.Logic.Or
use mathlib.Core.Bool.{Bool-set}
use osmdbt_pgoutput.Base.{ℕ, false, ◌≡◌, refl, sym, ◌∙◌, List, [], ◌∷◌, map, All}
use osmdbt_pgoutput.Base.Int.{ℤ}
use osmdbt_pgoutput.Osmium.{Objects}
use osmdbt_pgoutput.Osmobj.{Osmobj, Osmobjects, sort_objects, less, less_tuple}
use osmdbt_pgoutput.Osmobj.Order.{less_tuple_irrefl, less_tuple_total}

abbrev pub Key : Type 0
Key = ℕ × ℤ × ℕ

-- None of the keys is before an earlier one.
abbrev pub IsAscending : List Key → Type 0
IsAscending [] = Unit
IsAscending (k ∷ ks) = All (λ j. less_tuple j k ≡ false) ks × IsAscending ks

-- A key of the list, or the one in front of it, is not before that one.
not_before :
    (k j : Key) (ks : List Key)
    → All (λ i. less_tuple i k ≡ false) ks
    → Mem j (k ∷ ks)
    → less_tuple j k ≡ false
not_before k j ks h m =
    Or.elim (Bool-set _ _) (eq-or-mem_of_mem-cons m) (λ e. rw e (less_tuple_irrefl k))
      (λ m'. later ks h m')
  where
    later :
        (js : List Key) → All (λ i. less_tuple i k ≡ false) js → Mem j js → less_tuple j k ≡ false
    later [] h m = absurd (not-mem-nil m)
    later (i ∷ js) h m =
        Or.elim (Bool-set _ _) (eq-or-mem_of_mem-cons m) (λ e. rw e h.0) (λ m'. later js h.1 m')

same_first :
    (k j : Key) (ks js : List Key)
    → IsAscending (k ∷ ks)
    → IsAscending (j ∷ js)
    → Perm (k ∷ ks) (j ∷ js)
    → k ≡ j
same_first k j ks js h i p =
    less_tuple_total k j (not_before j k js i.0 ((Perm.mem_iff p).0 mem-cons_self))
      (not_before k j ks h.0 ((Perm.mem_iff p).1 mem-cons_self))

ascending_unique : (ks js : List Key) → IsAscending ks → IsAscending js → Perm ks js → ks ≡ js
ascending_unique [] js h i p = Perm.nil-eq p
ascending_unique (k ∷ ks) [] h i p = Perm.eq-nil p
ascending_unique (k ∷ ks) (j ∷ js) h i p =
    let same : k ≡ j = same_first k j ks js h i p in
    let moved : Perm (k ∷ ks) (k ∷ js) = Perm.trans p (Perm.cons' (sym same) Perm.rfl) in
    rw (same, ascending_unique ks js h.1 i.1 (Perm.cons_inv moved)) refl

module _ (osm : Objects) where
  -- None of the objects is before an earlier one by `operator<`.
  abbrev pub IsInOrder : List Osmobj → Type 0
  IsInOrder [] = Unit
  IsInOrder (obj ∷ objs) = All (λ other. less osm other obj ≡ false) objs × IsInOrder objs

  -- What `std::sort` promises for a range: the same elements in order.
  pub record IsSorted (objs sorted : List Osmobj) : Type 0 where
    pub permutes : Perm sorted objs
    pub in_order : IsInOrder sorted

  -- The same for the three ranges.
  abbrev pub AreSorted : (List Osmobj → List Osmobj) → Osmobjects → Type 0
  AreSorted sort objects =
      IsSorted objects.nodes (sort objects.nodes)
      × IsSorted objects.ways (sort objects.ways)
      × IsSorted objects.relations (sort objects.relations)

  -- What identifies an object: the index of its type, its id and its version.
  abbrev pub key_of : Osmobj → Key
  key_of obj = (osm.item_type_to_nwr_index obj.m_type, obj.m_id, obj.m_version)

  abbrev pub keys : List Osmobj → List Key
  keys = map key_of

  -- `operator<` compares what identifies the objects, all of it.
  less-key_of : (lhs rhs : Osmobj) → less osm lhs rhs ≡ less_tuple (key_of lhs) (key_of rhs)
  unfolding less
  less-key_of lhs rhs = refl

  All-keys :
      (obj : Osmobj) (objs : List Osmobj)
      → All (λ other. less osm other obj ≡ false) objs
      → All (λ k. less_tuple k (key_of obj) ≡ false) (keys objs)
  All-keys obj [] h = tt
  All-keys obj (other ∷ objs) h = (sym (less-key_of other obj) ∙ h.0, All-keys obj objs h.1)

  keys-IsAscending : (objs : List Osmobj) → IsInOrder objs → IsAscending (keys objs)
  keys-IsAscending [] h = tt
  keys-IsAscending (obj ∷ objs) h = (All-keys obj objs h.0, keys-IsAscending objs h.1)

  keys_unique :
      (objs objs' sorted sorted' : List Osmobj)
      → IsSorted objs sorted
      → IsSorted objs' sorted'
      → Perm objs objs'
      → keys sorted ≡ keys sorted'
  keys_unique objs objs' sorted sorted' h h' p =
      ascending_unique (keys sorted) (keys sorted') (keys-IsAscending sorted h.in_order)
        (keys-IsAscending sorted' h'.in_order)
        (Perm.map key_of (Perm.trans h.permutes (Perm.trans p (Perm.symm h'.permutes))))

  -- Whatever two implementations of `std::sort` do with equal objects, and in whatever order the same
  -- objects were read: if each of them puts the objects of each type in order, `osmobjects::sort`
  -- gives the same lists of types, ids and versions with both.
  pub sort_objects-keys :
      (sort sort' : List Osmobj → List Osmobj) (objects objects' : Osmobjects)
      → AreSorted sort objects
      → AreSorted sort' objects'
      → Perm objects.nodes objects'.nodes
      → Perm objects.ways objects'.ways
      → Perm objects.relations objects'.relations
      → (keys (sort_objects sort objects).nodes ≡ keys (sort_objects sort' objects').nodes)
        × (keys (sort_objects sort objects).ways ≡ keys (sort_objects sort' objects').ways)
        × (keys (sort_objects sort objects).relations
            ≡ keys (sort_objects sort' objects').relations)
  unfolding sort_objects
  sort_objects-keys sort sort' objects objects' h h' p q r = (
    keys_unique objects.nodes objects'.nodes _ _ h.0 h'.0 p,
    keys_unique objects.ways objects'.ways _ _ h.1 h'.1 q,
    keys_unique objects.relations objects'.relations _ _ h.2 h'.2 r,
  )
