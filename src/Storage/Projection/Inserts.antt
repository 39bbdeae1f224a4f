-- ===== src/Storage/Projection/Inserts.antt =====
-- What the INSERTs of `create_workflow_run` leave in the tables, when none of them fails.
use crashsafe.Prelude.{
  String, Bool, false, ◌&&◌, ◌≡◌, refl, sym, ap, subst, ◌∙◌, arith, List, [], ◌∷◌, ◌++◌, map, ok,
  >>=-eq-ok, ok_injective, str_eq, str_eq_self, str_eq_iff, contains, Nodup, Bool-cases, inl, inr,
  where_rows,
}
use crashsafe.Models.{Datetime, StepDefinition}
use crashsafe.History.Definitions.{ids_of, remaining}
use crashsafe.Storage.Db.{StepRow, DependencyRow, Db}
use crashsafe.Storage.Create.{
  insert_step, new_step, insert_steps, insert_dependency, insert_dependencies_of,
  insert_dependencies,
}

module _ {ℓ} {A : Type ℓ} where
  pub append-nil : (xs : List A) → xs ++ [] ≡ xs
  append-nil [] = refl
  append-nil (x ∷ xs) = ap (λ ys. x ∷ ys) (append-nil xs)

  pub append_assoc : (xs ys zs : List A) → (xs ++ ys) ++ zs ≡ xs ++ (ys ++ zs)
  append_assoc [] ys zs = refl
  append_assoc (x ∷ xs) ys zs = ap (λ rest. x ∷ rest) (append_assoc xs ys zs)

  pub where_rows-append :
      (test : A → Bool) (xs ys : List A)
      → where_rows test (xs ++ ys) ≡ where_rows test xs ++ where_rows test ys
  unfolding where_rows
  where_rows-append test [] ys = refl
  where_rows-append test (x ∷ xs) ys = ground (arith, where_rows-append test xs ys)

abbrev pub rows_of : String → String → List String → List DependencyRow
rows_of run_id step_id [] = []
rows_of run_id step_id (dependency ∷ rest) =
    record { run_id = run_id; step_id = step_id; dependency_step_id = dependency }
    ∷ rows_of run_id step_id rest

-- The dependency rows of all definitions.
abbrev pub dependency_rows : String → List StepDefinition → List DependencyRow
dependency_rows run_id [] = []
dependency_rows run_id (definition ∷ rest) =
    rows_of run_id definition.id definition.depends_on ++ dependency_rows run_id rest

abbrev pub with_steps : Db → List StepRow → Db
with_steps db rows = record db { steps = db.steps ++ rows }

abbrev pub with_dependencies : Db → List DependencyRow → Db
with_dependencies db rows = record db { step_dependencies = db.step_dependencies ++ rows }

pub insert_steps-rows :
    (run_id : String) (now : Datetime) (ds : List StepDefinition) (db after : Db)
    → insert_steps run_id now ds db ≡ ok after
    → after ≡ with_steps db (map (new_step run_id now) ds)
unfolding insert_steps insert_step
insert_steps-rows run_id now [] db after h =
    sym (ok_injective h) ∙ ap (λ rows. record db { steps = rows }) (sym (append-nil db.steps))
insert_steps-rows run_id now (d ∷ ds) db after h =
    let (inserted, e, h₁) = >>=-eq-ok (insert_step (new_step run_id now d) db) _ h in
    let one : inserted ≡ with_steps db (new_step run_id now d ∷ []) = ground (arith, e) in
    insert_steps-rows run_id now ds inserted after h₁
    ∙ ap (λ base. with_steps base (map (new_step run_id now) ds)) one
    ∙ ap (λ rows. record db { steps = rows })
        (append_assoc db.steps (new_step run_id now d ∷ []) (map (new_step run_id now) ds))

insert_dependencies_of-rows :
    (run_id step_id : String) (names : List String) (db after : Db)
    → insert_dependencies_of run_id step_id names db ≡ ok after
    → after ≡ with_dependencies db (rows_of run_id step_id names)
unfolding insert_dependencies_of insert_dependency
insert_dependencies_of-rows run_id step_id [] db after h =
    sym (ok_injective h)
    ∙ ap (λ rows. record db { step_dependencies = rows }) (sym (append-nil db.step_dependencies))
insert_dependencies_of-rows run_id step_id (name ∷ names) db after h =
    let row : DependencyRow = record {
      run_id = run_id;
      step_id = step_id;
      dependency_step_id = name;
    } in
    let (inserted, e, h₁) = >>=-eq-ok (insert_dependency row db) _ h in
    let one : inserted ≡ with_dependencies db (row ∷ []) = ground (arith, e) in
    insert_dependencies_of-rows run_id step_id names inserted after h₁
    ∙ ap (λ base. with_dependencies base (rows_of run_id step_id names)) one
    ∙ ap (λ rows. record db { step_dependencies = rows })
        (append_assoc db.step_dependencies (row ∷ []) (rows_of run_id step_id names))

pub insert_dependencies-rows :
    (run_id : String) (ds : List StepDefinition) (db after : Db)
    → insert_dependencies run_id ds db ≡ ok after
    → after ≡ with_dependencies db (dependency_rows run_id ds)
unfolding insert_dependencies
insert_dependencies-rows run_id [] db after h =
    sym (ok_injective h)
    ∙ ap (λ rows. record db { step_dependencies = rows }) (sym (append-nil db.step_dependencies))
insert_dependencies-rows run_id (d ∷ ds) db after h =
    let (inserted, e, h₁) = >>=-eq-ok (insert_dependencies_of run_id d.id d.depends_on db) _ h in
    insert_dependencies-rows run_id ds inserted after h₁
    ∙ ap (λ base. with_dependencies base (dependency_rows run_id ds))
        (insert_dependencies_of-rows run_id d.id d.depends_on db inserted e)
    ∙ ap (λ rows. record db { step_dependencies = rows })
        (append_assoc db.step_dependencies (rows_of run_id d.id d.depends_on)
          (dependency_rows run_id ds))

-- The rows of a step, and the names in them.
abbrev pub of_step : String → String → DependencyRow → Bool
of_step run_id step_id d = str_eq d.run_id run_id && str_eq d.step_id step_id

abbrev pub names_in : List DependencyRow → List String
names_in = map (λ (d : DependencyRow). d.dependency_step_id)

rows_of-own :
    (run_id step_id : String) (names : List String)
    → names_in (where_rows (of_step run_id step_id) (rows_of run_id step_id names)) ≡ names
unfolding where_rows
rows_of-own run_id step_id [] = refl
rows_of-own run_id step_id (name ∷ names) =
    ground (arith, rows_of-own run_id step_id names, str_eq_self run_id, str_eq_self step_id)

rows_of-other :
    (run_id step_id other : String) (names : List String)
    → str_eq other step_id ≡ false
    → where_rows (of_step run_id step_id) (rows_of run_id other names) ≡ []
unfolding where_rows
rows_of-other run_id step_id other [] h = refl
rows_of-other run_id step_id other (name ∷ names) h =
    ground (arith, rows_of-other run_id step_id other names h)

-- No definition of the id, no row.
no_rows :
    (run_id step_id : String) (ds : List StepDefinition)
    → contains step_id (ids_of ds) ≡ false
    → where_rows (of_step run_id step_id) (dependency_rows run_id ds) ≡ []
unfolding contains where_rows
no_rows run_id step_id [] h = refl
no_rows run_id step_id (d ∷ ds) h =
    let other : str_eq d.id step_id ≡ false =
      ground (arith, str_eq_iff d.id step_id, str_eq_iff step_id d.id) in
    where_rows-append (of_step run_id step_id) (rows_of run_id d.id d.depends_on)
      (dependency_rows run_id ds)
    ∙ ap (λ rows. rows ++ where_rows (of_step run_id step_id) (dependency_rows run_id ds))
        (rows_of-other run_id step_id d.id d.depends_on other)
    ∙ no_rows run_id step_id ds (ground arith)

-- The dependencies read back for a step are those of its definition.
pub dependency_rows-remaining :
    (run_id step_id : String) (ds : List StepDefinition)
    → Nodup (ids_of ds)
    → names_in (where_rows (of_step run_id step_id) (dependency_rows run_id ds))
      ≡ remaining ds step_id
unfolding remaining where_rows
dependency_rows-remaining run_id step_id [] h = refl
dependency_rows-remaining run_id step_id (d ∷ ds) h =
    let mine = of_step run_id step_id in
    let both =
      where_rows-append mine (rows_of run_id d.id d.depends_on) (dependency_rows run_id ds) in
    elim (Bool-cases (str_eq d.id step_id)) [
      | inl e ↦
          let same = (str_eq_iff d.id step_id).0 e in
          let rest =
            no_rows run_id step_id ds (subst (λ x. contains x (ids_of ds) ≡ false) same h.0) in
          ap names_in both
          ∙ ap (λ rows. names_in (where_rows mine (rows_of run_id d.id d.depends_on) ++ rows)) rest
          ∙ ap names_in (append-nil (where_rows mine (rows_of run_id d.id d.depends_on)))
          ∙ ap (λ x. names_in (where_rows mine (rows_of run_id x d.depends_on))) same
          ∙ rows_of-own run_id step_id d.depends_on
          ∙ rw e refl
      | inr e ↦
          ap names_in both
          ∙ ap (λ rows. names_in (rows ++ where_rows mine (dependency_rows run_id ds)))
              (rows_of-other run_id step_id d.id d.depends_on e)
          ∙ dependency_rows-remaining run_id step_id ds h.1
          ∙ rw e refl
    ]
