-- ===== src/Store/Statuses/Checks.antt =====
-- The writes of Store/Statuses.antt on rows that meet the constraints of their table.
use xrestream.Base.{
  ◌&&◌, ◌==◌, ◌∷◌, ◌≡◌, ==_iff, All, Bool, Bool-cases, List, Option, Text, [], arith, codes, false,
  inl, inr, none, not, refl, some, text_beq, text_eq, true,
}
use xrestream.Base.Int.{ℤ}
use xrestream.Store.Models.{Channel, Time}
use xrestream.Store.Sql.{any_where, update_where}
use xrestream.Store.Database.{
  Database, checks_channel, fits_integer, fits_option, has_node, has_user, is_status,
}
use xrestream.Store.Statuses.{
  set_source_status, set_worker_status, update_checked, with_source_status, with_worker_status,
}

-- The rows meet the constraints that the database's users and nodes decide.
abbrev pub Checked : Database → List Channel → Type 0
Checked db rows = All (λ ch. checks_channel db ch ≡ true) rows

module _ (db : Database) (id : Text) (change : Channel → Channel) where
  abbrev pub bad : Channel → Bool
  bad ch = ch.id == id && not (checks_channel db (change ch))

  pub update_where-Checked :
      (rows : List Channel)
      → any_where bad rows ≡ false
      → Checked db rows
      → Checked db (update_where (λ ch. ch.id == id) change rows)
  unfolding any_where update_where
  update_where-Checked [] n c = tt
  update_where-Checked (ch ∷ rows) n (here, c) = elim (Bool-cases (ch.id == id)) [
    | inl e ↦ rw e (ground arith, update_where-Checked rows (ground arith) c)
    | inr e ↦ rw e (here, update_where-Checked rows (ground arith) c)
  ]

  none_bad :
      ((ch : Channel) → checks_channel db ch ≡ true → checks_channel db (change ch) ≡ true)
      → (rows : List Channel) → Checked db rows
      → any_where bad rows ≡ false
  unfolding any_where
  none_bad keeps [] c = refl
  none_bad keeps (ch ∷ rows) (here, c) = ground (arith, keeps ch here, none_bad keeps rows c)

pub update_checked-Checked :
    (fault : Option Text) (db : Database) (id : Text) (change : Channel → Channel)
    → Checked db db.channels
    → let after = (update_checked fault db id change).0 in Checked after after.channels
unfolding update_checked checks_channel has_user has_node
update_checked-Checked (some why) db id change c = c
update_checked-Checked none db id change c =
    elim (Bool-cases (any_where (bad db id change) db.channels)) [
      | inl e ↦ rw e c
      | inr e ↦ rw e (update_where-Checked db id change db.channels e c)
    ]

pub set_worker_status-Checked :
    (fault : Option Text) (db : Database) (now : Time) (id worker_status : Text)
    (last_error : Option Text)
    → Checked db db.channels
    → let after = (set_worker_status fault db now id worker_status last_error).0 in
      Checked after after.channels
unfolding set_worker_status
set_worker_status-Checked fault db now id worker_status last_error c =
    update_checked-Checked fault db id (with_worker_status now worker_status last_error) c

pub set_source_status-Checked :
    (fault : Option Text) (db : Database) (now : Time) (id : Text) (code : ℤ)
    (err_message : Option Text)
    → Checked db db.channels
    → let after = (set_source_status fault db now id code err_message).0 in
      Checked after after.channels
unfolding set_source_status
set_source_status-Checked fault db now id code err_message c =
    update_checked-Checked fault db id (with_source_status now code err_message) c

source_status-checked :
    (db : Database) (now : Time) (code : ℤ) (err_message : Option Text)
    → fits_integer code ≡ true
    → (ch : Channel) → checks_channel db ch ≡ true
    → checks_channel db (with_source_status now code err_message ch) ≡ true
unfolding checks_channel with_source_status fits_option is_status text_beq
source_status-checked db now code none fits ch h = ground arith
source_status-checked db now code (some why) fits ch h = ground arith

-- A row of the channel is not an active one.
abbrev pub IsInactive : Text → Channel → Type 0
IsInactive id ch = (ch.id == id && ch.status == codes "active") ≡ false

error_rows :
    (now : Time) (id : Text) (code : ℤ) (why : Text) (rows : List Channel)
    → All
        (IsInactive id)
        (update_where (λ ch. ch.id == id) (with_source_status now code (some why)) rows)
unfolding update_where with_source_status text_beq
error_rows now id code why [] = tt
error_rows now id code why (ch ∷ rows) = elim (Bool-cases (ch.id == id)) [
  | inl e ↦ rw e (ground arith, error_rows now id code why rows)
  | inr e ↦ rw e (rw e refl, error_rows now id code why rows)
]

-- A source error leaves no active row of its channel.
pub set_source_status-IsInactive :
    (db : Database) (now : Time) (id : Text) (code : ℤ) (why : Text)
    → Checked db db.channels
    → fits_integer code ≡ true
    → All (IsInactive id) (set_source_status none db now id code (some why)).0.channels
unfolding set_source_status update_checked
set_source_status-IsInactive db now id code why c fits =
    rw
      (none_bad db id (with_source_status now code (some why))
        (source_status-checked db now code (some why) fits) db.channels c)
      (error_rows now id code why db.channels)

-- A write of another channel leaves the rows of this one as they were.
module _ (id other : Text) (change : Channel → Channel) where
  other_rows :
      (other == id) ≡ false
      → ((ch : Channel) → (change ch).id ≡ ch.id)
      → (rows : List Channel) → All (IsInactive id) rows
      → All (IsInactive id) (update_where (λ ch. ch.id == other) change rows)
  unfolding update_where
  other_rows ne keeps [] h = tt
  other_rows ne keeps (ch ∷ rows) (here, h) = elim (Bool-cases (ch.id == other)) [
    | inl e ↦ rw e (ground (arith, keeps ch, ==_iff ch.id other), other_rows ne keeps rows h)
    | inr e ↦ rw e (here, other_rows ne keeps rows h)
  ]

  pub update_checked-IsInactive :
      (fault : Option Text) (db : Database)
      → (other == id) ≡ false
      → ((ch : Channel) → (change ch).id ≡ ch.id)
      → All (IsInactive id) db.channels
      → All (IsInactive id) (update_checked fault db other change).0.channels
  unfolding update_checked
  update_checked-IsInactive (some why) db ne keeps h = h
  update_checked-IsInactive none db ne keeps h =
      elim (Bool-cases (any_where (bad db other change) db.channels)) [
        | inl e ↦ rw e h
        | inr e ↦ rw e (other_rows ne keeps db.channels h)
      ]
