-- ===== src/Headers/Serialize.antt =====
-- `http_structured_data::serialize` writes one line for each name, with the values of that name
-- joined.
use doormat.Base.{
  ◌≡◌, refl, sym, ap, subst, ◌∙◌, inl, inr, true, false, some, List, [], ◌∷◌, ◌++◌, append-nil,
  append_assoc, Bytes, codes, bytes_eq, bytes_eq_sound, bytes_eq_refl, if◌then◌else◌, is_empty,
  Bool-cases,
}
use doormat.Headers.Store.{Multimap, IsSorted, bytes_lt, lt_of_le_ne}
use doormat.Headers.{StructuredData, serialize, serialize_rest, last_key, crlf}

abbrev Groups : Type 0
Groups = List (Bytes × List Bytes)

abbrev add_group : Bytes → Bytes → Groups → Groups
add_group k v [] = (k, v ∷ []) ∷ []
add_group k v ((j, vs) ∷ g) = if bytes_eq j k then (k, v ∷ vs) ∷ g else (k, v ∷ []) ∷ (j, vs) ∷ g

-- The names, each with its values.
abbrev pub groups : Multimap → Groups
groups [] = []
groups ((k, v) ∷ m) = add_group k v (groups m)

abbrev pub separator : Bytes → Bytes
separator k = if bytes_eq k (codes "cookie") then codes "; " else codes ", "

abbrev more : Bytes → List Bytes → Bytes
more k [] = []
more k (v ∷ vs) = separator k ++ (v ++ more k vs)

abbrev pub joined : Bytes → List Bytes → Bytes
joined k [] = []
joined k (v ∷ vs) = v ++ more k vs

abbrev pub lines : Groups → Bytes
lines [] = []
lines ((k, vs) ∷ g) = k ++ (codes ": " ++ (joined k vs ++ (crlf ++ lines g)))

-- The same without the first name.
abbrev rest_lines : Groups → Bytes
rest_lines [] = []
rest_lines ((k, vs) ∷ g) = joined k vs ++ (crlf ++ lines g)

groups-head :
    (k v : Bytes) (m : Multimap)
    → (vs : List Bytes) × (g : Groups) × (groups ((k, v) ∷ m) ≡ (k, v ∷ vs) ∷ g)
groups-head k v m = add_head (groups m)
  where
    add_head : (h : Groups) → (vs : List Bytes) × (g : Groups) × (add_group k v h ≡ (k, v ∷ vs) ∷ g)
    add_head [] = ([], [], refl)
    add_head ((j, ws) ∷ h) = elim (Bool-cases (bytes_eq j k)) [
      | inl same ↦ (ws, h, rw same)
      | inr other ↦ ([], (j, ws) ∷ h, rw other)
    ]

ruleset appends = (append_assoc, append-nil)

regroup_same :
    (v w t r u sep c l : Bytes)
    → w ++ (t ++ c) ≡ (w ++ u) ++ (c ++ l)
    → v ++ ((sep ++ (w ++ t)) ++ c) ≡ (v ++ (sep ++ (w ++ u))) ++ (c ++ l)
regroup_same v w t r u sep c l h =
    let h' : w ++ (t ++ c) ≡ w ++ (u ++ (c ++ l)) = h ∙ append_assoc w u (c ++ l) in
    simp append_assoc (ap (λ x. v ++ (sep ++ x)) h')

regroup_other :
    (v w t j c l : Bytes)
    → w ++ (t ++ c) ≡ l
    → v ++ (((c ++ (j ++ codes ": ")) ++ (w ++ t)) ++ c) ≡ v ++ (c ++ (j ++ (codes ": " ++ l)))
regroup_other v w t j c l h = simp append_assoc (ap (λ x. v ++ (c ++ (j ++ (codes ": " ++ x)))) h)

regroup_end :
    (k q v s u c l : Bytes)
    → v ++ (s ++ c) ≡ (v ++ u) ++ (c ++ l)
    → k ++ (q ++ (v ++ (s ++ (c ++ c)))) ≡ (k ++ (q ++ ((v ++ u) ++ (c ++ l)))) ++ c
regroup_end k q v s u c l p =
    let p' : v ++ (s ++ (c ++ c)) ≡ v ++ (u ++ (c ++ (l ++ c))) =
      simp append_assoc at (ap (λ x. x ++ c) p) in
    simp append_assoc (ap (λ x. k ++ (q ++ x)) p')

serialize_rest-lines :
    (k v : Bytes) (m : Multimap)
    → v ++ (serialize_rest k m ++ crlf) ≡ rest_lines (groups ((k, v) ∷ m))
unfolding serialize_rest
serialize_rest-lines k v [] = simp appends
serialize_rest-lines k v ((j, w) ∷ m) =
    let (vs, g, e) = groups-head j w m in
    elim (Bool-cases (bytes_eq j k)) [
      | inl same ↦
          rw (e, same)
            (subst
              (λ i.
                v ++ ((separator j ++ (w ++ serialize_rest j m)) ++ crlf)
                ≡ (v ++ (separator i ++ (w ++ more i vs))) ++ (crlf ++ lines g))
              (bytes_eq_sound j k same)
              (regroup_same v w (serialize_rest j m) [] (more j vs) (separator j) crlf (lines g)
                (serialize_rest-lines j w m ∙ ap rest_lines e)))
      | inr other ↦
          rw (e, other)
            (regroup_other v w (serialize_rest j m) j crlf _
                (serialize_rest-lines j w m ∙ ap rest_lines e)
              ∙ ap (λ x. x ++ (crlf ++ lines ((j, w ∷ vs) ∷ g))) (sym (append-nil v)))
    ]

-- Each name is greater than the one before it, so none occurs twice.
abbrev pub Increasing : Groups → Type 0
Increasing [] = Unit {0}
Increasing ((k, vs) ∷ []) = Unit {0}
Increasing ((k, vs) ∷ (j, ws) ∷ g) = (bytes_lt k j ≡ true) × Increasing ((j, ws) ∷ g)

Increasing-values :
    (k : Bytes) (vs ws : List Bytes) (g : Groups)
    → Increasing ((k, vs) ∷ g)
    → Increasing ((k, ws) ∷ g)
Increasing-values k vs ws [] h = tt
Increasing-values k vs ws ((j, us) ∷ g) h = h

groups-Increasing : (m : Multimap) → IsSorted m → Increasing (groups m)
groups-Increasing [] s = tt
groups-Increasing ((k, v) ∷ []) s = tt
groups-Increasing ((k, v) ∷ (j, w) ∷ m) s =
    let (vs, g, e) = groups-head j w m in
    let ih : Increasing ((j, w ∷ vs) ∷ g) =
      subst Increasing e (groups-Increasing ((j, w) ∷ m) s.1) in
    elim (Bool-cases (bytes_eq j k)) [
      | inl same ↦
          rw (e, same)
            (subst (λ i. Increasing ((i, v ∷ w ∷ vs) ∷ g)) (bytes_eq_sound j k same)
              (Increasing-values j (w ∷ vs) (v ∷ w ∷ vs) g ih))
      | inr other ↦ rw (e, other) (lt_of_le_ne k j s.0.0 (bytes_eq_flip j k other), ih)
    ]
  where
    bytes_eq_flip : (j k : Bytes) → bytes_eq j k ≡ false → bytes_eq k j ≡ false
    bytes_eq_flip j k h = elim (Bool-cases (bytes_eq k j)) [
      | inl e ↦
          absurd (clash (sym (bytes_eq_refl k) ∙ ap (λ x. bytes_eq x k) (bytes_eq_sound k j e) ∙ h))
      | inr ne ↦ ne
    ]
      where
        clash : true ≡ false → ⊥
        clash h = cc

abbrev pub Named : Multimap → Type 0
Named [] = Unit {0}
Named ((k, v) ∷ m) = (is_empty k ≡ false) × Named m

last_key-Named : (k v : Bytes) (m : Multimap) → Named ((k, v) ∷ m) → is_empty (last_key k m) ≡ false
last_key-Named k v [] h = h.0
last_key-Named k v ((j, w) ∷ m) h = last_key-Named j w m h.1

-- A message with at least one field and no empty name is written as one line for each name, in the
-- order of the names, with the values of that name in order, joined by "; " for cookies and by ", "
-- for all others, and an empty line behind them.
pub serialize-lines :
    (d : StructuredData) (k v : Bytes) (m : Multimap)
    → d.headers ≡ (k, v) ∷ m
    → IsSorted d.headers
    → Named d.headers
    → (serialize d ≡ some (lines (groups d.headers) ++ crlf)) × Increasing (groups d.headers)
unfolding serialize
serialize-lines d k v m e s n = (
  rw (e, last_key-Named k v m (subst Named e n)) (ap some (written (groups-head k v m))),
  groups-Increasing d.headers s,
)
  where
    written :
        ((vs : List Bytes) × (g : Groups) × (groups ((k, v) ∷ m) ≡ (k, v ∷ vs) ∷ g))
        → k ++ (codes ": " ++ (v ++ (serialize_rest k m ++ (crlf ++ crlf))))
          ≡ lines (groups ((k, v) ∷ m)) ++ crlf
    written (vs, g, h) = rw h (
        regroup_end k (codes ": ") v (serialize_rest k m) (more k vs) crlf (lines g)
          (serialize_rest-lines k v m ∙ ap rest_lines h))
