-- ===== src/Storage/Database/Query.antt =====
-- QueryBuilder of src/storage/database.py. `P` are the parameters of statements.
use py2to3_example_project.Prelude.{
  ℕ, zero, suc, ◌+◌, ◌%◌, ◌/◌, ◌≡◌, refl, ◌∙◌, Option, none, some, List, [], ◌∷◌, ◌++◌, arith, ◌==◌,
  if◌then◌else◌, length, length-append,
}
use py2to3_example_project.Prelude.Text.{codes}
use py2to3_example_project.Prelude.Str.{Str, digits, join}

pub record QueryBuilder (P : Type 0) : Type 0 where
  pub table : Str
  pub columns : List Str
  pub wheres : List Str
  pub params : List P
  pub order : Option Str
  pub row_limit : Option ℕ

-- `" WHERE " + " AND ".join(wheres)`
abbrev pub where_part : List Str → Str
where_part [] = []
where_part (w ∷ ws) = codes " WHERE " ++ join (codes " AND ") (w ∷ ws)

abbrev pub order_part : Option Str → Str
order_part none = []
order_part (some []) = []
order_part (some (c ∷ order)) = codes " ORDER BY " ++ c ∷ order

abbrev pub limit_part : Option ℕ → Str
limit_part none = []
limit_part (some n) = codes " LIMIT " ++ digits (suc n) n

module _ {P : Type 0} where
  unfoldable pub new_query : (table : Str) → QueryBuilder P
  new_query table = record {
    table = table;
    columns = codes "*" ∷ [];
    wheres = [];
    params = [];
    order = none;
    row_limit = none;
  }

  unfoldable pub select : QueryBuilder P → (cols : List Str) → QueryBuilder P
  select q cols = record q { columns = cols }

  unfoldable pub where_clause : QueryBuilder P → (clause : Str) → (params : List P) → QueryBuilder P
  where_clause q clause params = record q {
    wheres = q.wheres ++ clause ∷ [];
    params = q.params ++ params;
  }

  unfoldable pub order_by : QueryBuilder P → (col direction : Str) → QueryBuilder P
  order_by q col direction = record q { order = some (col ++ (b' ' ∷ direction)) }

  unfoldable pub limit : QueryBuilder P → ℕ → QueryBuilder P
  limit q n = record q { row_limit = some n }

  unfoldable pub build : QueryBuilder P → Str × List P
  unfolding join digits
  build q = (
    codes "SELECT "
        ++ (join (codes ", ") q.columns
            ++ (codes " FROM "
                ++ (q.table
                    ++ (where_part q.wheres ++ (order_part q.order ++ limit_part q.row_limit))))),
    q.params,
  )

-- The number of placeholders in a text, and in texts.
unfoldable pub marks : Str → ℕ
marks [] = 0
marks (c ∷ s) = let rest = marks s in if c == b'?' then rest + 1 else rest

abbrev pub marks_in : List Str → ℕ
marks_in [] = 0
marks_in (s ∷ ss) = marks s + marks_in ss

-- The calls that lead to a builder: the names hold no placeholder, and each clause has as many as it
-- is given parameters.
pub data Built {P : Type 0} : QueryBuilder P → Type 0 where
  new : (table : Str) → marks table ≡ 0 → Built (new_query table)
  selecting :
      {q : QueryBuilder P} → Built q → (cols : List Str) → marks_in cols ≡ 0 → Built (select q cols)
  filtering :
      {q : QueryBuilder P}
      → Built q
      → (clause : Str) (params : List P) → marks clause ≡ length params
      → Built (where_clause q clause params)
  ordering :
      {q : QueryBuilder P}
      → Built q
      → (col direction : Str) → marks col ≡ 0
      → marks direction ≡ 0
      → Built (order_by q col direction)
  limiting : {q : QueryBuilder P} → Built q → (n : ℕ) → Built (limit q n)

marks-append : (s t : Str) → marks (s ++ t) ≡ marks s + marks t
unfolding marks
marks-append [] t = omega arith
marks-append (c ∷ s) t = ground (arith, marks-append s t)

marks-join : (sep : Str) (ps : List Str) → marks sep ≡ 0 → marks (join sep ps) ≡ marks_in ps
unfolding join marks
marks-join sep [] h = refl
marks-join sep (p ∷ []) h = omega arith
marks-join sep (p ∷ q ∷ ps) h = omega (
  arith,
  marks-append p (sep ++ join sep (q ∷ ps)),
  marks-append sep (join sep (q ∷ ps)),
  marks-join sep (q ∷ ps) h,
)

marks-digits : (fuel n : ℕ) → marks (digits fuel n) ≡ 0
unfolding marks digits
marks-digits zero n = refl
marks-digits (suc fuel) n =
    let front = marks-digits fuel (n / 10) in
    let last = marks-append (digits fuel (n / 10)) ((b'0' + n % 10) ∷ []) in ground arith

marks_in-append : (ss ts : List Str) → marks_in (ss ++ ts) ≡ marks_in ss + marks_in ts
marks_in-append [] ts = omega arith
marks_in-append (s ∷ ss) ts = omega (arith, marks_in-append ss ts)

marks-where_part : (ws : List Str) → marks (where_part ws) ≡ marks_in ws
unfolding marks
marks-where_part [] = refl
marks-where_part (w ∷ ws) = marks-join (codes " AND ") (w ∷ ws) refl

marks-order_part : (s : Str) → marks (order_part (some s)) ≡ marks s
unfolding marks
marks-order_part [] = refl
marks-order_part (c ∷ s) = refl

record IsSound {P : Type 0} (q : QueryBuilder P) : Type 0 where
  table_named : marks q.table ≡ 0
  columns_named : marks_in q.columns ≡ 0
  given : marks_in q.wheres ≡ length q.params
  order_named : marks (order_part q.order) ≡ 0
  limit_named : marks (limit_part q.row_limit) ≡ 0

Built-IsSound : {P : Type 0} {q : QueryBuilder P} → Built q → IsSound q
unfolding marks new_query select where_clause order_by limit
Built-IsSound (new table h) = record {
  table_named = h;
  columns_named = refl;
  given = refl;
  order_named = refl;
  limit_named = refl;
}
Built-IsSound (selecting b cols h) =
    let i = Built-IsSound b in
    record {
      table_named = i.table_named;
      columns_named = h;
      given = i.given;
      order_named = i.order_named;
      limit_named = i.limit_named;
    }
Built-IsSound (filtering {q} b clause params h) =
    let i = Built-IsSound b in
    record {
      table_named = i.table_named;
      columns_named = i.columns_named;
      given = omega (
        arith,
        marks_in-append q.wheres (clause ∷ []),
        length-append q.params params,
        h,
        i.given,
      );
      order_named = i.order_named;
      limit_named = i.limit_named;
    }
Built-IsSound (ordering b col direction h k) =
    let i = Built-IsSound b in
    record {
      table_named = i.table_named;
      columns_named = i.columns_named;
      given = i.given;
      order_named =
          marks-order_part (col ++ (b' ' ∷ direction))
          ∙ omega (arith, marks-append col (b' ' ∷ direction), h, k);
      limit_named = i.limit_named;
    }
Built-IsSound (limiting b n) =
    let i = Built-IsSound b in
    record {
      table_named = i.table_named;
      columns_named = i.columns_named;
      given = i.given;
      order_named = i.order_named;
      limit_named = marks-digits (suc n) n;
    }

-- A statement that the calls of a builder lead to has as many placeholders as parameters, where no
-- name of a table, a column or an order holds one and each clause comes with as many parameters as
-- it has placeholders.
pub marks-build :
    {P : Type 0} {q : QueryBuilder P} → Built q → marks (build q).0 ≡ length (build q).1
unfolding marks build
marks-build {P} {q} b =
    let i = Built-IsSound b in
    let tail = order_part q.order ++ limit_part q.row_limit in
    omega (
      arith,
      i.table_named,
      i.columns_named,
      i.given,
      i.order_named,
      i.limit_named,
      marks-append (join (codes ", ") q.columns)
          (codes " FROM " ++ (q.table ++ (where_part q.wheres ++ tail))),
      marks-append q.table (where_part q.wheres ++ tail),
      marks-append (where_part q.wheres) tail,
      marks-append (order_part q.order) (limit_part q.row_limit),
      marks-join (codes ", ") q.columns refl,
      marks-where_part q.wheres,
    )
