-- ===== src/Hub/Sets.antt =====
-- The maps of the hub: sets of clients, by environment and namespace.
use mizuflow.Base.{
  ℕ, String, ◌≡◌, refl, sym, ap, ◌∙◌, inl, inr, Bool-cases, Option-cases, eq_iff, eq_refl, Bool,
  false, not, ◌&&◌, ◌||◌, Option, none, some, List, [], ◌∷◌, ◌==◌, str_eq, arith, if◌then◌else◌,
}
use mizuflow.Base.Dict.{Dict, lookup, insert, delete, lookup-insert, lookup-delete}
use mizuflow.Stream.{contains}

-- Sets of clients.
unfoldable pub has : ℕ → List ℕ → Bool
has id [] = false
has id (j ∷ js) = id == j || has id js

unfoldable pub add_id : ℕ → List ℕ → List ℕ
add_id id [] = id ∷ []
add_id id (j ∷ js) = if id == j then j ∷ js else j ∷ add_id id js

unfoldable pub remove_id : ℕ → List ℕ → List ℕ
remove_id id [] = []
remove_id id (j ∷ js) = let rest = remove_id id js in if id == j then rest else j ∷ rest

abbrev pub Shards : Type 0
Shards = Dict (Dict (List ℕ))

abbrev pub or_empty : {A : Type 0} → Option (List A) → List A
or_empty none = []
or_empty (some xs) = xs

-- The set at an environment and a namespace, empty where there is none.
unfoldable pub members : String → String → Shards → List ℕ
members env namespace shards = or_empty (lookup namespace (or_empty (lookup env shards)))

-- The loop of `addToShards` over the namespaces.
unfoldable pub add_names : ℕ → List String → Dict (List ℕ) → Dict (List ℕ)
add_names id [] m = m
add_names id (n ∷ ns) m = add_names id ns (insert n (add_id id (or_empty (lookup n m))) m)

unfoldable pub add_to : ℕ → String → List String → Shards → Shards
unfolding add_names
add_to id env namespaces shards =
    insert env (add_names id namespaces (or_empty (lookup env shards))) shards

-- A set or a map that is left empty is deleted.
unfoldable pub put_or_delete : {A : Type 0} → String → List A → Dict (List A) → Dict (List A)
put_or_delete k [] m = delete k m
put_or_delete k (x ∷ xs) m = insert k (x ∷ xs) m

unfoldable pub remove_name : ℕ → String → Dict (List ℕ) → Dict (List ℕ)
unfolding put_or_delete
remove_name id n m = elim (lookup n m) [
  | none ↦ m
  | some ids ↦ put_or_delete n (remove_id id ids) m
]

-- The loop of `removeFromShards` over the namespaces.
unfoldable pub remove_names : ℕ → List String → Dict (List ℕ) → Dict (List ℕ)
unfolding remove_name
remove_names id [] m = m
remove_names id (n ∷ ns) m = remove_names id ns (remove_name id n m)

unfoldable pub remove_from : ℕ → String → List String → Shards → Shards
unfolding remove_names put_or_delete
remove_from id env namespaces shards = elim (lookup env shards) [
  | none ↦ shards
  | some m ↦ put_or_delete env (remove_names id namespaces m) shards
]

pub has-add_id : (j id : ℕ) (ids : List ℕ) → has j (add_id id ids) ≡ (j == id || has j ids)
unfolding has add_id
has-add_id j id [] = refl
has-add_id j id (i ∷ ids) = ground (arith, has-add_id j id ids)

pub has-remove_id :
    (j id : ℕ) (ids : List ℕ) → has j (remove_id id ids) ≡ (not (j == id) && has j ids)
unfolding has remove_id
has-remove_id j id [] = ground arith
has-remove_id j id (i ∷ ids) = ground (arith, has-remove_id j id ids)

pub or_empty-put_or_delete :
    {A : Type 0} (j k : String) (xs : List A) (m : Dict (List A))
    → or_empty (lookup j (put_or_delete k xs m))
      ≡ (if str_eq k j then xs else or_empty (lookup j m))
unfolding put_or_delete
or_empty-put_or_delete j k [] m = rw (lookup-delete k j m) (ground arith)
or_empty-put_or_delete j k (x ∷ xs) m = rw (lookup-insert k j (x ∷ xs) m) (ground arith)

has-add_names :
    (j id : ℕ) (n : String) (ns : List String) (m : Dict (List ℕ))
    → has j (or_empty (lookup n (add_names id ns m)))
      ≡ ((j == id && contains n ns) || has j (or_empty (lookup n m)))
unfolding add_names contains
has-add_names j id n [] m = ground arith
has-add_names j id n (k ∷ ns) m =
    rw
      (
        has-add_names j id n ns (insert k (add_id id (or_empty (lookup k m))) m),
        lookup-insert k n (add_id id (or_empty (lookup k m))) m,
      )
      (elim (Bool-cases (str_eq k n)) [
        | inl t ↦
            rw (t, (eq_iff k n).0 t, eq_refl n, has-add_id j id (or_empty (lookup n m)))
              (ground arith)
        | inr t ↦ rw t (ground (arith, t, eq_iff k n, eq_iff n k))
      ])

-- What is made of the set that was found.
unfoldable shrink : ℕ → String → Option (List ℕ) → Dict (List ℕ) → Dict (List ℕ)
shrink id k none m = m
shrink id k (some ids) m = put_or_delete k (remove_id id ids) m

remove_name-eq :
    (id : ℕ) (k : String) (m : Dict (List ℕ)) → remove_name id k m ≡ shrink id k (lookup k m) m
unfolding remove_name shrink
remove_name-eq id k m = elim (Option-cases (lookup k m)) [
  | inl e ↦ rw (e, remove_name)
  | inr (ids, e) ↦ rw (e, remove_name)
]

none_found : (j id : ℕ) (b : Bool) → has j [] ≡ (not (j == id && b) && has j [])
unfolding has
none_found j id b = ground arith

shrink_lem :
    (j id : ℕ) (n k : String) (o : Option (List ℕ)) (m : Dict (List ℕ))
    → lookup k m ≡ o
    → has j (or_empty (lookup n (shrink id k o m)))
      ≡ (not (j == id && str_eq k n) && has j (or_empty (lookup n m)))
unfolding shrink
shrink_lem j id n k none m e = elim (Bool-cases (str_eq k n)) [
  | inl t ↦ rw (sym ((eq_iff k n).0 t), e) (none_found j id (str_eq k k))
  | inr t ↦ rw t (ground arith)
]
shrink_lem j id n k (some ids) m e = elim (Bool-cases (str_eq k n)) [
  | inl t ↦
      rw (or_empty-put_or_delete n k (remove_id id ids) m, t)
        (rw (sym ((eq_iff k n).0 t), e, has-remove_id j id ids) (ground arith))
  | inr t ↦ rw (or_empty-put_or_delete n k (remove_id id ids) m, t) (ground arith)
]

remove_name_lem :
    (j id : ℕ) (n k : String) (m : Dict (List ℕ))
    → has j (or_empty (lookup n (remove_name id k m)))
      ≡ (not (j == id && str_eq k n) && has j (or_empty (lookup n m)))
remove_name_lem j id n k m =
    ap (λ (x : Dict (List ℕ)). has j (or_empty (lookup n x))) (remove_name-eq id k m)
    ∙ shrink_lem j id n k (lookup k m) m refl

has-remove_names :
    (j id : ℕ) (n : String) (ns : List String) (m : Dict (List ℕ))
    → has j (or_empty (lookup n (remove_names id ns m)))
      ≡ (not (j == id && contains n ns) && has j (or_empty (lookup n m)))
unfolding remove_names contains
has-remove_names j id n [] m = ground arith
has-remove_names j id n (k ∷ ns) m =
    rw (has-remove_names j id n ns (remove_name id k m), remove_name_lem j id n k m)
      (ground (arith, eq_iff k n, eq_iff n k))

pub members-add_to :
    (j id : ℕ) (e n env : String) (ns : List String) (s : Shards)
    → has j (members e n (add_to id env ns s))
      ≡ ((j == id && (str_eq env e && contains n ns)) || has j (members e n s))
unfolding members add_to
members-add_to j id e n env ns s = elim (Bool-cases (str_eq env e)) [
  | inl t ↦
      rw (lookup-insert env e (add_names id ns (or_empty (lookup env s))) s, t)
        (rw (sym ((eq_iff env e).0 t)) (has-add_names j id n ns (or_empty (lookup env s))))
  | inr t ↦ rw (lookup-insert env e (add_names id ns (or_empty (lookup env s))) s, t) (ground arith)
]

-- What is made of the shards of the environment.
unfoldable shrink_env : ℕ → String → List String → Option (Dict (List ℕ)) → Shards → Shards
shrink_env id env ns none s = s
shrink_env id env ns (some m) s = put_or_delete env (remove_names id ns m) s

remove_from-eq :
    (id : ℕ) (env : String) (ns : List String) (s : Shards)
    → remove_from id env ns s ≡ shrink_env id env ns (lookup env s) s
unfolding remove_from shrink_env
remove_from-eq id env ns s = elim (Option-cases (lookup env s)) [
  | inl e ↦ rw (e, remove_from)
  | inr (m, e) ↦ rw (e, remove_from)
]

shrink_env_lem :
    (j id : ℕ) (e n env : String) (ns : List String) (o : Option (Dict (List ℕ))) (s : Shards)
    → lookup env s ≡ o
    → has j (members e n (shrink_env id env ns o s))
      ≡ (not (j == id && (str_eq env e && contains n ns)) && has j (members e n s))
unfolding shrink_env members lookup
shrink_env_lem j id e n env ns none s h = elim (Bool-cases (str_eq env e)) [
  | inl t ↦ rw (t, sym ((eq_iff env e).0 t), h) (none_found j id (contains n ns))
  | inr t ↦ rw t (ground arith)
]
shrink_env_lem j id e n env ns (some m) s h = elim (Bool-cases (str_eq env e)) [
  | inl t ↦
      rw (or_empty-put_or_delete e env (remove_names id ns m) s, t)
        (rw (sym ((eq_iff env e).0 t), h) (has-remove_names j id n ns m))
  | inr t ↦ rw (or_empty-put_or_delete e env (remove_names id ns m) s, t) (ground arith)
]

pub members-remove_from :
    (j id : ℕ) (e n env : String) (ns : List String) (s : Shards)
    → has j (members e n (remove_from id env ns s))
      ≡ (not (j == id && (str_eq env e && contains n ns)) && has j (members e n s))
members-remove_from j id e n env ns s =
    ap (λ x. has j (members e n x)) (remove_from-eq id env ns s)
    ∙ shrink_env_lem j id e n env ns (lookup env s) s refl
