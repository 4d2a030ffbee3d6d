-- ===== src/Database/Repository.antt =====
-- include/repository.hpp and include/relations.hpp over the in-memory connection. A model and its
-- mapper are the application's; `none` is an exception, here also one of the mapper.
pub mod Hydrated
pub mod Pages
pub mod Relations
use public_cpp_laravel.Prelude.{
  ◌>>=◌, ℕ, suc, ◌+◌, ◌-◌, ◌*◌, ◌/◌, ◌%◌, ◌^◌, Bool, List, [], ◌∷◌, ◌++◌, Option, none, some, ◌==◌,
  if◌then◌else◌, Text, codes, Dict, Eq, lookup, insert, erase, text_key,
}
use public_cpp_laravel.Prelude.Int.{ℤ, pos, eqb_ℤ, eqb_ℤ_iff}
use public_cpp_laravel.Database.Value.{Float, Value, int, Row, is_sql_identifier}
use public_cpp_laravel.Database.Memory.{Connection, find, all, insert_row, update, remove}
use public_cpp_laravel.Database.Select.{Op, WhereClause, OrderClause, Query, select}
use public_cpp_laravel.Database.Select

instance abbrev pub int_key : Eq ℤ
int_key = record { beq = eqb_ℤ; beq_iff = eqb_ℤ_iff }

-- What a `Mapper` provides.
pub record Mapper (D T : Type 0) : Type 0 where
  pub table : Text
  pub hydrate : Row D → Option T
  pub to_row : T → Row D
  pub id : T → ℤ
  pub set_id : T → ℤ → T

pub record Page (T : Type 0) : Type 0 where
  pub items : List T
  pub total : ℕ
  pub page : ℕ
  pub per_page : ℕ
  pub last_page : ℕ

-- `checked` throws on a column that is no identifier.
unfoldable pub checked : Text → Option Text
checked column = if is_sql_identifier column then some column else none

-- The sums and products are of `std::size_t`.
unfoldable pub last_page_of : ℕ → ℕ → ℕ
last_page_of total per_page =
    if per_page == 0 then 1 else (total + per_page - 1) % 2 ^ 64 / per_page

unfoldable pub offset_of : ℕ → ℕ → ℕ
offset_of page per_page = (if page == 0 then 0 else page - 1) * per_page % 2 ^ 64

module _ {D : Type 0} where
  abbrev pub all_rows : Query D
  all_rows = record { wheres = []; order = none; limit = none; offset = none }

  unfoldable pub push_where : Query D → WhereClause D → Query D
  push_where q w = record q { wheres = q.wheres ++ (w ∷ []) }

  unfoldable pub where_op : Query D → Text → Op → Value D → Option (Query D)
  unfolding checked push_where
  where_op q column op value = do
    col ← checked column
    some (push_where q (record { column = col; op = op; value = value; values = [] }))

  unfoldable pub where_eq : Query D → Text → Value D → Option (Query D)
  unfolding where_op
  where_eq q column value = where_op q column Op.eq value

  -- `value` is left as it is built, the integer 0.
  unfoldable pub where_in : Query D → Text → List (Value D) → Option (Query D)
  unfolding checked push_where
  where_in q column values = do
    col ← checked column
    some (
        push_where q
          (record { column = col; op = Op.in_list; value = int (pos 0); values = values }))

  unfoldable pub order_by : Query D → Text → Bool → Option (Query D)
  unfolding checked
  order_by q column descending = do
    col ← checked column
    some (record q { order = some (record { column = col; descending = descending }) })

  unfoldable pub limit_to : Query D → ℕ → Query D
  limit_to q n = record q { limit = some n }

  unfoldable pub offset_by : Query D → ℕ → Query D
  offset_by q n = record q { offset = some n }

abbrev pub ids_in : {D : Type 0} → List ℤ → List (Value D)
ids_in [] = []
ids_in (id ∷ ids) = int id ∷ ids_in ids

module _ {T : Type 0} where
  abbrev pub or_nil : Option (List T) → List T
  or_nil none = []
  or_nil (some ts) = ts

  unfoldable pub group : (T → ℤ) → List T → Dict ℤ (List T) → Dict ℤ (List T)
  unfolding insert lookup
  group key_of [] grouped = grouped
  group key_of (child ∷ children) grouped =
      group key_of children
        (insert (key_of child) (or_nil (lookup (key_of child) grouped) ++ (child ∷ [])) grouped)

module _ {D T : Type 0} (mapper : Mapper D T) where
  -- The loop of `push_back(Mapper::hydrate(r))`.
  unfoldable pub hydrate_all : List (Row D) → Option (List T)
  hydrate_all [] = some []
  hydrate_all (r ∷ rows) =
      let rest = hydrate_all rows in mapper.hydrate r >>= λ t. rest >>= λ ts. some (t ∷ ts)

  unfoldable pub first_row : List (Row D) → Option (Option T)
  first_row [] = some none
  first_row (r ∷ rows) = mapper.hydrate r >>= λ t. some (some t)

module _ {D T : Type 0} (fl : Float D) (mapper : Mapper D T) (c : Connection D) where
  unfoldable pub get : Query D → Option (List T)
  unfolding hydrate_all
  get q = select fl c mapper.table q >>= hydrate_all mapper

  unfoldable pub first : Query D → Option (Option T)
  unfolding first_row limit_to
  first q = select fl c mapper.table (limit_to q 1) >>= first_row mapper

  unfoldable pub count : Query D → Option ℕ
  count q = Select.count fl c mapper.table q

  unfoldable pub paginate : Query D → ℕ → ℕ → Option (Page T)
  unfolding count get last_page_of offset_of
  paginate q page per_page = do
    let base : Query D = record q { limit = none; offset = none }
    total ← count base
    items ← get (record base { limit = some per_page; offset = some (offset_of page per_page) })
    some (record {
      items = items;
      total = total;
      page = page;
      per_page = per_page;
      last_page = last_page_of total per_page;
    })

  -- `Repository`.
  unfoldable pub find_model : ℤ → Option (Option T)
  unfolding first_row find
  find_model id = elim (find fl c mapper.table id) [
    | none ↦ some none
    | some r ↦ first_row mapper (r ∷ [])
  ]

  unfoldable pub all_models : Option (List T)
  unfolding hydrate_all all
  all_models = hydrate_all mapper (all fl c mapper.table)

  unfoldable pub where_models : Text → Value D → Option (List T)
  unfolding where_eq get
  where_models column value = where_eq all_rows column value >>= get

  -- The model with its new id, and the connection.
  unfoldable pub insert_model : T → T × Connection D
  unfolding insert_row erase
  insert_model model =
      let (id, c') = insert_row fl c mapper.table (erase (codes "id") (mapper.to_row model)) in
      (mapper.set_id model id, c')

  unfoldable pub update_model : T → Bool × Connection D
  unfolding update
  update_model model = update fl c mapper.table (mapper.id model) (mapper.to_row model)

  unfoldable pub remove_model : T → Bool × Connection D
  unfolding remove
  remove_model model = remove fl c mapper.table (mapper.id model)

  -- include/relations.hpp
  unfoldable pub has_many : Text → ℤ → Option (Query D)
  unfolding where_eq
  has_many foreign_key parent_id = where_eq all_rows foreign_key (int parent_id)

  unfoldable pub has_one : Text → ℤ → Option (Option T)
  unfolding has_many first
  has_one foreign_key parent_id = has_many foreign_key parent_id >>= first

  unfoldable pub belongs_to : ℤ → Option (Option T)
  unfolding where_eq first
  belongs_to foreign_id = where_eq all_rows (codes "id") (int foreign_id) >>= first

  unfoldable pub load_has_many : Text → List ℤ → (T → ℤ) → Option (Dict ℤ (List T))
  unfolding where_in get group
  load_has_many foreign_key parent_ids key_of = do
    q ← where_in all_rows foreign_key (ids_in parent_ids)
    children ← get q
    some (group key_of children [])
