-- ===== src/Tasks/Frame.antt =====
-- What `Read` shows of the other fields after a change of one (internal/tasks/tasks.go).
use matrixctrl.Common.{
  ◌≡◌, refl, ap, sym, ◌∙◌, String, true, Bool-cases, Option, none, some, List, [], ◌∷◌, ◌++◌, ◌⊎◌,
  inl, inr, str_eq, lookup, if◌then◌else◌,
}
use matrixctrl.Common.Dots.{split_dots, has_no_dot, is_cons, split_dots-is_cons}
use matrixctrl.Common.Tree.{Value, str, object, Fields, get}
use matrixctrl.Common.Tree.Paths.{disjoint, get-set-disjoint}
use matrixctrl.Common.Tree.Removal.{get-del-disjoint}
use matrixctrl.Config.Sections.{set_path, del_path, apply_sets, apply_removes}
use matrixctrl.Tasks.Fields.{Field, block, is_null, additional, or_default, get_from, read_field}
use matrixctrl.Tasks.Edits.{
  Plan, done, by_id, as_int, edit_at, copy_map, block_path, config_path, edit_block, unless_default,
  write,
}
use matrixctrl.Tasks.Placed.{
  apply_plan, set_one, remove_one, split_dots-block_path, split_dots-config_path,
}
use matrixctrl.Tasks.Single.{IsPlanOf, write-key, write-path}
use matrixctrl.Tasks.Shown.{IsOurs, IsReadBack, get-end}
use matrixctrl.Tasks.ReadBack.{edited, read_field-planned}

-- The place that a change of the field writes to.
abbrev pub place : Field → List String
place f =
    if str_eq f.source.values ""
    then f.source.component ∷ "additional" ∷ block ∷ []
    else split_dots f.source.values

-- The place that the field is read from.
abbrev pub home : Field → List String
home f =
    if str_eq f.source.values ""
    then f.source.component ∷ "additional" ∷ []
    else split_dots f.source.values

disjoint-append : (p r q : List String) → disjoint p q ≡ true → disjoint (p ++ r) q ≡ true
disjoint-append [] r q h = cc h
disjoint-append (k ∷ p) r [] h = cc h
disjoint-append (k ∷ p) r (j ∷ q) h = elim (Bool-cases (str_eq k j)) [
  | inl e ↦ rw e (disjoint-append p r q (rw e at h))
  | inr e ↦ rw e refl
]

get-set_path :
    (path : List String) (v : Value) (m : Fields) (q : List String)
    → disjoint path q ≡ true
    → get q (object (set_path path v m)) ≡ get q (object m)
get-set_path [] v m q h = refl
get-set_path (k ∷ path) v m q h = get-set-disjoint k path v m q h

get-del_path :
    (path : List String) (m : Fields) (q : List String)
    → disjoint path q ≡ true
    → get q (object (del_path path m)) ≡ get q (object m)
get-del_path [] m q h = refl
get-del_path (k ∷ path) m q h = get-del-disjoint k path m q h

get-edit_at-disjoint :
    (path : List String) (v : Value) (b : Fields) (q : List String)
    → disjoint path q ≡ true
    → get q (object (edit_at path v b)) ≡ get q (object b)
get-edit_at-disjoint [] v b q h = refl
get-edit_at-disjoint (k ∷ path) v b q h = elim (Bool-cases (is_null v)) [
  | inl n ↦ rw n (get-del-disjoint k path b q h)
  | inr n ↦ rw n (get-set-disjoint k path v b q h)
]

get-set_one :
    (path : String) (v : Value) (values : Fields) (q : List String)
    → disjoint (split_dots path) q ≡ true
    → get q (object (apply_plan (set_one path v) values)) ≡ get q (object values)
unfolding apply_removes apply_sets
get-set_one path v values q h = get-set_path (split_dots path) v values q h

get-remove_one :
    (path : String) (values : Fields) (q : List String)
    → disjoint (split_dots path) q ≡ true
    → get q (object (apply_plan (remove_one path) values)) ≡ get q (object values)
unfolding apply_removes apply_sets
get-remove_one path values q h = get-del_path (split_dots path) values q h

get-path_plan :
    (path : String) (w : Value) (values : Fields) (q : List String)
    → disjoint (split_dots path) q ≡ true
    → get q (object (apply_plan (if is_null w then remove_one path else set_one path w) values))
      ≡ get q (object values)
get-path_plan path w values q h = elim (Bool-cases (is_null w)) [
  | inl n ↦ rw n (get-remove_one path values q h)
  | inr n ↦ rw n (get-set_one path w values q h)
]

get-block_plan :
    (json_text yaml_text : Fields → Option String) (component : String) (b : Fields) (plan : Plan)
    (values : Fields) (q : List String)
    → has_no_dot component ≡ true
    → IsPlanOf json_text yaml_text component b plan
    → disjoint (component ∷ "additional" ∷ block ∷ []) q ≡ true
    → get q (object (apply_plan plan values)) ≡ get q (object values)
get-block_plan json_text yaml_text component b plan values q plain (inl p) h =
    ap (λ r. get q (object (apply_plan r values))) (p.1)
    ∙ get-remove_one (block_path component) values q (rw (split_dots-block_path component plain) h)
get-block_plan json_text yaml_text component b plan values q plain (inr (inl p)) h =
    ap (λ r. get q (object (apply_plan r values))) (p.2)
    ∙ get-set_one (block_path component) (str (p.0)) values q
        (rw (split_dots-block_path component plain) h)
get-block_plan json_text yaml_text component b plan values q plain (inr (inr p)) h =
    ap (λ r. get q (object (apply_plan r values))) (p.2)
    ∙ get-set_one (config_path component) (str (p.0)) values q (
        rw (split_dots-config_path component plain)
          (disjoint-append (component ∷ "additional" ∷ block ∷ []) ("config" ∷ []) q h))

module _ (shown : Value → String) (decode : String → Option Fields) where
  read_field-home :
      (old new : Fields) (g : Field)
      → get (home g) (object new) ≡ get (home g) (object old)
      → read_field shown decode new g ≡ read_field shown decode old g
  unfolding read_field additional
  read_field-home old new g h = elim (Bool-cases (str_eq g.source.values "")) [
    | inl k ↦ rw (k, rw k at h) refl
    | inr k ↦ rw (k, rw k at h) refl
  ]

  get-copy_map :
      (key : List String) (o : Option Fields)
      → is_cons key ≡ true
      → get key (object (copy_map o)) ≡ get_from shown decode key o
  get-copy_map key none h = get-end key h
  get-copy_map key (some b) h = refl

  get-edit_block :
      (f : Field) (w : Value) (b : Fields) (q : List String)
      → disjoint (split_dots f.source.key) q ≡ true
      → get q (object (edit_block shown decode f w b)) ≡ get q (object b)
  get-edit_block f w b q h =
      get-edit_at-disjoint (split_dots f.source.key) (unless_default shown decode f w) b q h

  read_field-ours :
      (values : Fields) (g : Field)
      → str_eq g.source.values "" ≡ true
      → IsOurs shown decode values g
      → read_field shown decode values g
        ≡ or_default shown decode g (
            get (split_dots g.source.key) (
              object (copy_map (lookup block (additional shown decode values g.source.component)))))
  unfolding read_field
  read_field-ours values g k ours =
      rw
        (
          k,
          ours,
          get-copy_map (split_dots g.source.key)
              (lookup block (additional shown decode values g.source.component))
              (split_dots-is_cons g.source.key),
        )
        refl

-- `g` is another key of the block that `f` is a key of.
abbrev pub IsNeighbour : Field → Field → Type 0
IsNeighbour f g =
    (str_eq f.source.values "" ≡ true)
    × (str_eq g.source.values "" ≡ true)
    × (g.source.component ≡ f.source.component)
    × (disjoint (split_dots f.source.key) (split_dots g.source.key) ≡ true)

module _ (shown : Value → String) (decode : String → Option Fields)
    (json_text yaml_text : Fields → Option String) where
  -- The block that a change of `f` writes is read back at the key of `g`.
  abbrev pub IsKept : Fields → Field → Value → Field → Type 0
  IsKept values f w g =
      IsOurs shown decode values g
      × ((t : String)
          → (json_text (edited shown decode values f w) ≡ some t)
            ⊎ (yaml_text (edited shown decode values f w) ≡ some t)
          → IsReadBack shown decode (split_dots g.source.key) (edited shown decode values f w) t)

  read_field-neighbour :
      (values : Fields) (f g : Field) (w : Value) (plan : Plan)
      → has_no_dot f.source.component ≡ true
      → IsNeighbour f g
      → IsKept values f w g
      → IsPlanOf json_text yaml_text f.source.component (edited shown decode values f w) plan
      → read_field shown decode (apply_plan plan values) g ≡ read_field shown decode values g
  read_field-neighbour values f g w plan plain next kept planned =
      read_field-planned shown decode json_text yaml_text values g (next.1) (rw (next.2) plain)
        (kept.0) (edited shown decode values f w) plan (rw (next.2) planned) (kept.1)
      ∙ ap (or_default shown decode g) (
          get-edit_block shown decode f w
            (copy_map (lookup block (additional shown decode values f.source.component)))
            (split_dots g.source.key) (next.3))
      ∙ ap
          (λ c. or_default shown decode g (
            get (split_dots g.source.key)
              (object (copy_map (lookup block (additional shown decode values c))))))
          (sym (next.2))
      ∙ sym (read_field-ours shown decode values g (next.1) (kept.0))

-- The same for any two fields whose places do not overlap.
pub read_field-write_other :
    (shown : Value → String) (decode : String → Option Fields) (trim_space : String → String)
    (json_text yaml_text : Fields → Option String) (values : Fields) (fields : List Field)
    (id : String) (v : Value) (f g : Field) (plan : Plan)
    → lookup id (by_id fields []) ≡ some f
    → write shown decode trim_space json_text yaml_text values fields ((id, v) ∷ []) ≡ done plan
    → has_no_dot f.source.component ≡ true
    → (disjoint (place f) (home g) ≡ true)
      ⊎ (IsNeighbour f g × IsKept shown decode json_text yaml_text values f (as_int f.kind v) g)
    → read_field shown decode (apply_plan plan values) g ≡ read_field shown decode values g
read_field-write_other shown decode trim_space json_text yaml_text values fields id v f g plan known
      planned plain (inr p) =
    read_field-neighbour shown decode json_text yaml_text values f g (as_int f.kind v) plan plain
      (p.0) (p.1)
      (write-key shown decode trim_space json_text yaml_text values fields id v f plan known planned
        (p.0.0))
read_field-write_other shown decode trim_space json_text yaml_text values fields id v f g plan known
      planned plain (inl p) =
    read_field-home shown decode values (apply_plan plan values) g
      (elim (Bool-cases (str_eq f.source.values "")) [
        | inl k ↦
            get-block_plan json_text yaml_text f.source.component
              (edited shown decode values f (as_int f.kind v)) plan values (home g) plain
              (write-key shown decode trim_space json_text yaml_text values fields id v f plan known
                planned k)
              (rw k at p)
        | inr k ↦
            ap (λ r. get (home g) (object (apply_plan r values)))
              (write-path shown decode trim_space json_text yaml_text values fields id v f plan
                known planned k)
            ∙ get-path_plan f.source.values (as_int f.kind v) values (home g) (rw k at p)
      ])
