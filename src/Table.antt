-- ===== src/Table.antt =====
-- The table of migrations/*.sql: its rows, and the SQL constructs that the queries of
-- engine/store.go use. A statement is a function on the rows.
pub mod Rows
use pg_outbox.Base.{
  ℕ, Bool, false, ◌||◌, Option, none, some, List, [], ◌∷◌, map, ltb, if◌then◌else◌, select,
}
use pg_outbox.Base.Int.{ℤ}
use Prim.Native.String.{String}
use pg_outbox.Base.Text.{◌==◌ as ◌=s=◌}
use pg_outbox.Message.{Status}

-- A row of outbox_messages; NULL is `none`. `headers` is the text of the jsonb value.
pub record Row : Type 0 where
  pub id : String
  pub topic : String
  pub partition_key : Option String
  pub payload : List ℕ
  pub headers : String
  pub content_type : Option String
  pub message_type : Option String
  pub status : Status
  pub attempts : ℕ
  pub max_attempts : Option ℤ
  pub locked_by : Option String
  pub locked_until : Option ℕ
  pub next_attempt_at : ℕ
  pub last_error : Option String
  pub created_at : ℕ
  pub published_at : Option ℕ
  pub lease_token : Option String
  pub finished_at : Option ℕ
  pub seq : ℕ

-- The rows in their physical order, and the next value of the `seq` sequence.
pub record Table : Type 0 where
  pub rows : List Row
  pub next_seq : ℕ

module _ {ℓ} {A : Type ℓ} where
  -- UPDATE ... SET f WHERE p
  abbrev pub update : (A → Bool) → (A → A) → List A → List A
  update p f [] = []
  update p f (r ∷ rs) = (if p r then f r else r) ∷ update p f rs

  -- RETURNING: the new rows that the update wrote.
  abbrev pub returning : (A → Bool) → (A → A) → List A → List A
  returning p f rs = map f (select p rs)

  abbrev pub exists : (A → Bool) → List A → Bool
  exists p [] = false
  exists p (r ∷ rs) = p r || exists p rs

  -- ORDER BY, for a test that says whether its first argument comes before its second.
  abbrev pub insert : (A → A → Bool) → A → List A → List A
  insert before x [] = x ∷ []
  insert before x (y ∷ ys) = if before x y then x ∷ y ∷ ys else y ∷ insert before x ys

  abbrev pub sort : (A → A → Bool) → List A → List A
  sort before [] = []
  sort before (x ∷ xs) = insert before x (sort before xs)

-- `t < now` for a timestamp that may be NULL.
abbrev pub before : Option ℕ → ℕ → Bool
before none now = false
before (some t) now = ltb t now

-- `t > now` for a timestamp that may be NULL.
abbrev pub after : Option ℕ → ℕ → Bool
after none now = false
after (some t) now = ltb now t

-- `a = b` for texts that may be NULL: NULL equals nothing.
abbrev pub sql_eq : Option String → Option String → Bool
sql_eq (some a) (some b) = a =s= b
sql_eq _ _ = false

abbrev pub contains : List String → String → Bool
contains [] x = false
contains (y ∷ ys) x = y =s= x || contains ys x

abbrev pub ids : List Row → List String
ids = map (λ r. r.id)
