-- ===== src/HostPort/Victims.antt =====
-- Which pods `hostPortVictims` of internal/k8s/hostport.go picks.
use matrixctrl.Common.{
  String, ◌≡◌, ◌≢◌, ◌↔◌, ◌⊎◌, ◌∙◌, sym, false≢true, str_eq_ne, str_eq_self, Option, none, some,
  lookup, refl, ap, Bool, Bool-cases, inl, inr, true, false, List, [], ◌∷◌, ◌++◌, ◌&&◌, ◌||◌, not,
  str_eq, eq_iff, has_text, arith, if◌then◌else◌,
}
use matrixctrl.Common.Bytes.{Bytes, ascii, contains}
use matrixctrl.HostPort.Unblock.{
  Owner, Pod, owner_rs, found_or_empty, deployment_of, is_stuck, blocks, add_blocking, victims_for,
  host_port_victims,
}

abbrev pub any : (Pod → Bool) → List Pod → Bool
any p [] = false
any p (x ∷ xs) = p x || any p xs

abbrev pub Exists : (Pod → Type 0) → List Pod → Type 0
Exists P [] = ⊥
Exists P (x ∷ xs) = P x ⊎ Exists P xs

any-Exists :
    (p : Pod → Bool) (P : Pod → Type 0)
    → ((x : Pod) → (p x ≡ true) ↔ P x)
    → (xs : List Pod) → (any p xs ≡ true) ↔ Exists P xs
any-Exists p P h [] = (λ e. false≢true e, λ e. absurd e)
any-Exists p P h (x ∷ xs) = (
  λ e. elim (Bool-cases (p x)) [
    | inl t ↦ inl ((h x).0 t)
    | inr f ↦ inr ((any-Exists p P h xs).0 (rw f at e))
  ],
  λ e. elim e [ inl t ↦ rw ((h x).1 t) refl | inr t ↦ ground (arith, (any-Exists p P h xs).1 t) ],
)

-- The first of the owners that is a ReplicaSet is `rs`; "" where none is one.
abbrev pub IsOwnedBy : List Owner → String → Type 0
IsOwnedBy [] rs = rs ≡ ""
IsOwnedBy (o ∷ os) rs =
    ((o.kind ≡ "ReplicaSet") × (o.name ≡ rs)) ⊎ ((o.kind ≢ "ReplicaSet") × IsOwnedBy os rs)

owner_rs-IsOwnedBy : (os : List Owner) → IsOwnedBy os (owner_rs os)
unfolding owner_rs
owner_rs-IsOwnedBy [] = refl
owner_rs-IsOwnedBy (o ∷ os) = elim (Bool-cases (str_eq o.kind "ReplicaSet")) [
  | inl h ↦ rw h (inl ((eq_iff o.kind "ReplicaSet").0 h, refl))
  | inr h ↦
      rw h (inr (λ e. false≢true (sym h ∙ (eq_iff o.kind "ReplicaSet").1 e), owner_rs-IsOwnedBy os))
]

IsOwnedBy-eq : (os : List Owner) (rs : String) → IsOwnedBy os rs → owner_rs os ≡ rs
unfolding owner_rs
IsOwnedBy-eq [] rs h = sym h
IsOwnedBy-eq (o ∷ os) rs h = elim h [
  | inl (k, n) ↦ rw ((eq_iff o.kind "ReplicaSet").1 k) n
  | inr (k, n) ↦ rw (str_eq_ne o.kind "ReplicaSet" k) (IsOwnedBy-eq os rs n)
]

ne_of : (a b : String) → str_eq a b ≡ false → a ≢ b
ne_of a b h e = false≢true (sym h ∙ (eq_iff a b).1 e)

found_or_empty-some : (x : Option String) (d : String) → d ≢ "" → found_or_empty x ≡ d → x ≡ some d
found_or_empty-some none d n h = absurd (n (sym h))
found_or_empty-some (some s) d n h = ap some h

deployment_of-some :
    (owners : List (String × String)) (rs d : String)
    → d ≢ ""
    → deployment_of owners rs ≡ d
    → lookup rs owners ≡ some d
unfolding deployment_of
deployment_of-some owners rs d n h = found_or_empty-some (lookup rs owners) d n h

deployment_of-lookup :
    (owners : List (String × String)) (rs d : String)
    → lookup rs owners ≡ some d
    → deployment_of owners rs ≡ d
unfolding deployment_of
deployment_of-lookup owners rs d h = rw h refl

-- No name twice.
abbrev pub IsDistinct : List String → Type 0
IsDistinct [] = Unit
IsDistinct (x ∷ xs) = (has_text x xs ≡ false) × IsDistinct xs

has_text-append_one :
    (v n : String) (xs : List String) → has_text v (xs ++ n ∷ []) ≡ (has_text v xs || str_eq n v)
has_text-append_one v n [] = ground arith
has_text-append_one v n (x ∷ xs) = ground (arith, has_text-append_one v n xs)

append_one-IsDistinct :
    (n : String) (xs : List String)
    → has_text n xs ≡ false
    → IsDistinct xs
    → IsDistinct (xs ++ n ∷ [])
append_one-IsDistinct n [] h d = (refl, tt)
append_one-IsDistinct n (x ∷ xs) h (hx, d) = (
  ground (arith, has_text-append_one x n xs, eq_iff n x, eq_iff x n),
  append_one-IsDistinct n xs (ground arith) d,
)

module _ (rs_owner : List (String × String)) (refusal : String → Bytes) where
  has_text-eq :
      (v n : String) (xs : List String) → str_eq n v ≡ true → has_text n xs ≡ has_text v xs
  has_text-eq v n xs h = ap (λ s. has_text s xs) ((eq_iff n v).0 h)

  -- One step of the inner loop.
  has_text-add_one :
      (v : String) (b : Bool) (n : String) (found : List String)
      → has_text v (if b && not (has_text n found) then found ++ n ∷ [] else found)
        ≡ (has_text v found || (b && str_eq n v))
  has_text-add_one v b n found =
      ground (arith, has_text-eq v n found, has_text-append_one v n found)

  has_text-add_blocking :
      (v : String) (pending : Pod) (pods : List Pod) (found : List String)
      → has_text v (add_blocking rs_owner refusal pending pods found)
        ≡ (has_text v found || any (λ o. blocks rs_owner refusal pending o && str_eq o.name v) pods)
  unfolding add_blocking
  has_text-add_blocking v pending [] found = ground arith
  has_text-add_blocking v pending (o ∷ pods) found = ground (
    arith,
    has_text-add_blocking v pending pods (
        if blocks rs_owner refusal pending o && not (has_text o.name found)
        then found ++ o.name ∷ []
        else found),
    has_text-add_one v (blocks rs_owner refusal pending o) o.name found,
  )

  has_text-victims_for :
      (v : String) (rest pods : List Pod) (found : List String)
      → has_text v (victims_for rs_owner refusal rest pods found) ≡ (
          has_text v found
          || any
              (λ p.
                is_stuck rs_owner refusal p
                && any (λ o. blocks rs_owner refusal p o && str_eq o.name v) pods)
              rest)
  unfolding victims_for
  has_text-victims_for v [] pods found = ground arith
  has_text-victims_for v (p ∷ rest) pods found = elim (Bool-cases (is_stuck rs_owner refusal p)) [
    | inl h ↦ ground (
      arith,
      has_text-victims_for v rest pods (add_blocking rs_owner refusal p pods found),
      has_text-add_blocking v p pods found,
    )
    | inr h ↦ ground (arith, has_text-victims_for v rest pods found)
  ]

  add_one-IsDistinct :
      (b : Bool) (n : String) (found : List String)
      → IsDistinct found
      → IsDistinct (if b && not (has_text n found) then found ++ n ∷ [] else found)
  add_one-IsDistinct false n found d = d
  add_one-IsDistinct true n found d = elim (Bool-cases (has_text n found)) [
    | inl h ↦ rw h d
    | inr h ↦ rw h (append_one-IsDistinct n found h d)
  ]

  add_blocking-IsDistinct :
      (pending : Pod) (pods : List Pod) (found : List String)
      → IsDistinct found
      → IsDistinct (add_blocking rs_owner refusal pending pods found)
  unfolding add_blocking
  add_blocking-IsDistinct pending [] found d = d
  add_blocking-IsDistinct pending (o ∷ pods) found d =
      add_blocking-IsDistinct pending pods _
        (add_one-IsDistinct (blocks rs_owner refusal pending o) o.name found d)

  victims_for-IsDistinct :
      (rest pods : List Pod) (found : List String)
      → IsDistinct found
      → IsDistinct (victims_for rs_owner refusal rest pods found)
  unfolding victims_for
  victims_for-IsDistinct [] pods found d = d
  victims_for-IsDistinct (p ∷ rest) pods found d = elim (Bool-cases (is_stuck rs_owner refusal p)) [
    | inl h ↦ rw h (
        victims_for-IsDistinct rest pods (add_blocking rs_owner refusal p pods found)
          (add_blocking-IsDistinct p pods found d))
    | inr h ↦ rw h (victims_for-IsDistinct rest pods found d)
  ]

  -- `pending` is refused for its ports: it is pending on the host network, is not being deleted, belongs to
  -- ReplicaSet `rs` of Deployment `d`, and the scheduler says that no node had the ports free.
  abbrev pub IsRefused : Pod → String → String → Type 0
  IsRefused pending rs d =
      (pending.phase ≡ "Pending")
      × (pending.host_network ≡ true)
      × (pending.deleting ≡ false)
      × IsOwnedBy pending.owners rs
      × (rs ≢ "")
      × (lookup rs rs_owner ≡ some d)
      × (d ≢ "")
      × (contains (refusal pending.name) (ascii "didn't have free ports") ≡ true)

  -- `old` is named `v`, runs on the host network, is not being deleted, and is of another ReplicaSet of
  -- Deployment `d`.
  abbrev pub IsInTheWay : String → String → String → Pod → Type 0
  IsInTheWay rs d v old =
      (old.phase ≡ "Running")
      × (old.host_network ≡ true)
      × (old.deleting ≡ false)
      × ((other : String) × IsOwnedBy old.owners other
          × (other ≢ rs)
          × (lookup other rs_owner ≡ some d))
      × (old.name ≡ v)

  blocks-IsInTheWay :
      (p o : Pod) (v rs d : String)
      → IsRefused p rs d
      → (blocks rs_owner refusal p o && str_eq o.name v ≡ true) ↔ IsInTheWay rs d v o
  unfolding blocks
  blocks-IsInTheWay p o v rs d (_, _, _, owned, _, found, some_d, _) =
      let is_rs = IsOwnedBy-eq p.owners rs owned in
      let is_d = deployment_of-lookup rs_owner rs d found in
      (
        λ h.
            let k = rw (is_rs, is_d) at h in
            (
              (eq_iff o.phase "Running").0 (ground arith),
              ground arith,
              ground arith,
              (
                owner_rs o.owners,
                owner_rs-IsOwnedBy o.owners,
                ne_of (owner_rs o.owners) rs (ground arith),
                deployment_of-some rs_owner (owner_rs o.owners) d some_d
                    ((eq_iff (deployment_of rs_owner (owner_rs o.owners)) d).0 (ground arith)),
              ),
              (eq_iff o.name v).0 (ground arith),
            ),
        λ (phase, host, kept, (other, owned_o, apart, found_o), name).
            rw
              (
                is_rs,
                is_d,
                (eq_iff o.phase "Running").1 phase,
                host,
                kept,
                IsOwnedBy-eq o.owners other owned_o,
                deployment_of-lookup rs_owner other d found_o,
                str_eq_ne other rs apart,
                str_eq_self d,
                (eq_iff o.name v).1 name,
              )
              refl,
      )

  is_stuck-IsRefused :
      (p : Pod)
      → is_stuck rs_owner refusal p ≡ true
      → IsRefused p (owner_rs p.owners) (deployment_of rs_owner (owner_rs p.owners))
  unfolding is_stuck
  is_stuck-IsRefused p h =
      let rs = owner_rs p.owners in
      let has_none = ne_of (deployment_of rs_owner rs) "" (ground arith) in
      (
        (eq_iff p.phase "Pending").0 (ground arith),
        ground arith,
        ground arith,
        owner_rs-IsOwnedBy p.owners,
        ne_of rs "" (ground arith),
        deployment_of-some rs_owner rs (deployment_of rs_owner rs) has_none refl,
        has_none,
        ground arith,
      )

  IsRefused-is_stuck :
      (p : Pod) (rs d : String) → IsRefused p rs d → is_stuck rs_owner refusal p ≡ true
  unfolding is_stuck
  IsRefused-is_stuck p rs d (phase, host, kept, owned, named, found, some_d, said) =
      rw
        (
          (eq_iff p.phase "Pending").1 phase,
          host,
          kept,
          IsOwnedBy-eq p.owners rs owned,
          deployment_of-lookup rs_owner rs d found,
          str_eq_ne rs "" named,
          str_eq_ne d "" some_d,
          said,
        )
        refl

  -- What the picking of `v` on behalf of `p` comes to.
  abbrev pub IsVictimOf : List Pod → String → Pod → Type 0
  IsVictimOf pods v p =
      (rs : String) × (d : String) × IsRefused p rs d × Exists (IsInTheWay rs d v) pods

  picked-IsVictimOf :
      (pods : List Pod) (v : String) (p : Pod)
      → (is_stuck rs_owner refusal p
            && any (λ o. blocks rs_owner refusal p o && str_eq o.name v) pods
          ≡ true)
        ↔ IsVictimOf pods v p
  picked-IsVictimOf pods v p = (
    λ h. elim (Bool-cases (is_stuck rs_owner refusal p)) [
      | inl s ↦
          let rs = owner_rs p.owners in
          let d = deployment_of rs_owner (owner_rs p.owners) in
          let r = is_stuck-IsRefused p s in
          (
            rs,
            d,
            r,
            (any-Exists (λ o. blocks rs_owner refusal p o && str_eq o.name v) (IsInTheWay rs d v)
                  (λ o. blocks-IsInTheWay p o v rs d r) pods).0
                (rw s at h),
          )
      | inr s ↦ absurd (false≢true (rw s at h))
    ],
    λ (rs, d, r, e). rw (IsRefused-is_stuck p rs d r) (
        (any-Exists (λ o. blocks rs_owner refusal p o && str_eq o.name v) (IsInTheWay rs d v)
            (λ o. blocks-IsInTheWay p o v rs d r) pods).1
          e),
  )

  -- A name is picked exactly if a pod of that name runs on the host network, is not being deleted and is
  -- of another ReplicaSet of the Deployment of a pod that is pending on the host network, is not being
  -- deleted, and was refused because no node had its ports free; and no name is picked twice.
  pub host_port_victims_lem :
      (pods : List Pod)
      → ((v : String)
          → (has_text v (host_port_victims rs_owner refusal pods) ≡ true)
            ↔ Exists (IsVictimOf pods v) pods)
        × IsDistinct (host_port_victims rs_owner refusal pods)
  unfolding host_port_victims
  host_port_victims_lem pods = (
    λ v. rw (has_text-victims_for v pods pods []) (
        any-Exists
          (λ p.
            is_stuck rs_owner refusal p
            && any (λ o. blocks rs_owner refusal p o && str_eq o.name v) pods)
          (IsVictimOf pods v) (picked-IsVictimOf pods v) pods),
    victims_for-IsDistinct pods pods [] tt,
  )
