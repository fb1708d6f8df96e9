-- ===== src/Tasks/Catalogue/Apart.antt =====
-- The settings of the page (internal/tasks/tasks.go) do not stand in one another's way.
use matrixctrl.Common.{
  arith, ◌⊎◌, ◌≡◌, refl, Bool, true, false, List, [], ◌∷◌, ◌&&◌, ◌||◌, str_eq, str_eq_self, eq_iff,
  subst, String, Option, some, All, lookup, insert, Bool-cases, inl, inr,
}
use matrixctrl.Common.Dots.{split_dots, has_no_dot}
use matrixctrl.Common.Tree.Paths.{disjoint}
use matrixctrl.Tasks.Fields.{Field, read_field}
use matrixctrl.Common.Tree.{Value, Fields}
use matrixctrl.Tasks.Edits.{Plan, done, by_id, as_int, write}
use matrixctrl.Tasks.Placed.{apply_plan}
use matrixctrl.Tasks.Frame.{place, home, IsNeighbour, IsKept, read_field-write_other}
use matrixctrl.Tasks.Catalogue.{cards, all_fields}

-- A change of `f` leaves the place of `g` alone.
abbrev pub is_apart : Field → Field → Bool
is_apart f g =
    disjoint (place f) (home g)
    || (str_eq f.source.values ""
        && str_eq g.source.values ""
        && str_eq g.source.component f.source.component
        && disjoint (split_dots f.source.key) (split_dots g.source.key))

unfoldable pub apart_from_all : Field → List Field → Bool
apart_from_all f [] = true
apart_from_all f (g ∷ gs) = (str_eq f.id g.id || is_apart f g) && apart_from_all f gs

unfoldable pub all_apart : List Field → List Field → Bool
all_apart [] gs = true
all_apart (f ∷ fs) gs = has_no_dot f.source.component && apart_from_all f gs && all_apart fs gs

cards-all_apart : all_apart (all_fields cards) (all_fields cards) ≡ true
unfolding cards all_fields all_apart apart_from_all split_dots
cards-all_apart = refl

abbrev IsApartFrom : Field → Field → Type 0
IsApartFrom f g = str_eq f.id g.id ≡ false → is_apart f g ≡ true

All-apart_from_all :
    (f : Field) (gs : List Field) → apart_from_all f gs ≡ true → All (IsApartFrom f) gs
unfolding apart_from_all
All-apart_from_all f [] h = tt
All-apart_from_all f (g ∷ gs) h =
    ((λ n. ground (arith, h, n)), All-apart_from_all f gs (ground arith))

abbrev IsPlain : List Field → Field → Type 0
IsPlain gs f = (has_no_dot f.source.component ≡ true) × All (IsApartFrom f) gs

All-all_apart : (fs gs : List Field) → all_apart fs gs ≡ true → All (IsPlain gs) fs
unfolding all_apart
All-all_apart [] gs h = tt
All-all_apart (f ∷ fs) gs h =
    ((ground arith, All-apart_from_all f gs (ground arith)), All-all_apart fs gs (ground arith))

-- What holds of every field holds of the one that an id stands for, and that one has the id.
module _ (P : Field → Type 0) where
  abbrev IsUnder : String × Field → Type 0
  IsUnder (id, f) = (str_eq f.id id ≡ true) × P f

  All-insert :
      (id : String) (f : Field) (fields : List (String × Field))
      → IsUnder (id, f)
      → All IsUnder fields
      → All IsUnder (insert id f fields)
  unfolding insert
  All-insert id f [] u a = (u, tt)
  All-insert id f ((k, g) ∷ fields) u a = elim (Bool-cases (str_eq k id)) [
    | inl e ↦ rw e (u, a.1)
    | inr e ↦ rw e (a.0, All-insert id f fields u (a.1))
  ]

  All-by_id :
      (fs : List Field) (fields : List (String × Field))
      → All P fs
      → All IsUnder fields
      → All IsUnder (by_id fs fields)
  unfolding by_id
  All-by_id [] fields p a = a
  All-by_id (f ∷ fs) fields p a =
      All-by_id fs (insert f.id f fields) (p.1) (All-insert f.id f fields (str_eq_self f.id, p.0) a)

  All-lookup :
      (id : String) (fields : List (String × Field)) (f : Field)
      → All IsUnder fields
      → lookup id fields ≡ some f
      → (str_eq f.id id ≡ true) × P f
  unfolding lookup
  All-lookup id [] f a l = cc l
  All-lookup id ((k, g) ∷ fields) f a l = elim (Bool-cases (str_eq k id)) [
    | inl e ↦
        subst (λ x. (str_eq x.id id ≡ true) × P x) (cc (rw e at l))
          (subst (λ s. str_eq g.id s ≡ true) ((eq_iff k id).0 e) (a.0.0), a.0.1)
    | inr e ↦ All-lookup id fields f (a.1) (rw e at l)
  ]

neighbour :
    (f g : Field)
    → (str_eq f.source.values ""
        && str_eq g.source.values ""
        && str_eq g.source.component f.source.component
        && disjoint (split_dots f.source.key) (split_dots g.source.key))
      ≡ true
    → IsNeighbour f g
neighbour f g h = (
  ground arith,
  ground arith,
  (eq_iff g.source.component f.source.component).0 (ground arith),
  ground arith,
)

is_apart-cases :
    (f g : Field) → is_apart f g ≡ true → (disjoint (place f) (home g) ≡ true) ⊎ IsNeighbour f g
is_apart-cases f g h = elim (Bool-cases (disjoint (place f) (home g))) [
  | inl d ↦ inl d
  | inr d ↦ inr (neighbour f g (rw d at h))
]

-- Two settings of the page with different ids.
module _ (id other : String) (f g : Field)
    (known : lookup id (by_id (all_fields cards) []) ≡ some f)
    (known_other : lookup other (by_id (all_fields cards) []) ≡ some g)
    (ne : str_eq id other ≡ false) where
  card_of : (has_no_dot f.source.component ≡ true) × (is_apart f g ≡ true)
  card_of =
      let plain =
        All-by_id (IsPlain (all_fields cards)) (all_fields cards) []
          (All-all_apart (all_fields cards) (all_fields cards) cards-all_apart) tt in
      let mine =
        All-lookup (IsPlain (all_fields cards)) id (by_id (all_fields cards) []) f plain known in
      let theirs =
        All-lookup (IsApartFrom f) other (by_id (all_fields cards) []) g
          (All-by_id (IsApartFrom f) (all_fields cards) [] (mine.1.1) tt) known_other in
      (mine.1.0, theirs.1 (rw ((eq_iff f.id id).0 (mine.0), (eq_iff g.id other).0 (theirs.0)) ne))

-- After one change of a setting of the page for which `Write` returns a plan, and the plan is carried out
-- on the settings as one map, every setting of the page with another id is shown as before. For another
-- key of the same block: no other block sets it, and the text written for the block is not
-- empty and is decoded to a map with the block's value at that key.
pub read_field-write_card :
    (shown : Value → String) (decode : String → Option Fields) (trim_space : String → String)
    (json_text yaml_text : Fields → Option String) (values : Fields) (id other : String) (v : Value)
    (f g : Field) (plan : Plan)
    → lookup id (by_id (all_fields cards) []) ≡ some f
    → lookup other (by_id (all_fields cards) []) ≡ some g
    → str_eq id other ≡ false
    → write shown decode trim_space json_text yaml_text values (all_fields cards) ((id, v) ∷ [])
      ≡ done plan
    → (IsNeighbour f g → IsKept shown decode json_text yaml_text values f (as_int f.kind v) g)
    → read_field shown decode (apply_plan plan values) g ≡ read_field shown decode values g
read_field-write_card shown decode trim_space json_text yaml_text values id other v f g plan known
      known_other ne planned kept =
    let c = card_of id other f g known known_other ne in
    read_field-write_other shown decode trim_space json_text yaml_text values (all_fields cards) id
      v f g plan known planned (c.0)
      (elim (is_apart-cases f g (c.1)) [ inl d ↦ inl d | inr n ↦ inr (n, kept n) ])
