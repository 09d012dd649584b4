-- ===== src/Admin/Handlers/Guarded.antt =====
-- What the handlers answer_result, and what they do to the store before.
use lowcode_wrapper.Base.{
  ℕ, Bool, true, false, leb, Text, text, text_eq, List, [], ◌∷◌, ◌++◌, Result, if◌then◌else◌, not,
  ◌≡◌, refl, arith, Bool-cases, Option-cases, Result-cases, inl, inr,
}
use lowcode_wrapper.Models.{Uuid, Fields}
use lowcode_wrapper.Auth.Admin.{admin_prefix}
use lowcode_wrapper.Admin.Interface.{
  Change, MetaStore, Leads, Body, Reply, write_admin_error, credential_of, server_of, created_table,
  table_of, column_of, function_of,
}
use lowcode_wrapper.Admin.Paths.{parse_admin_id_tail, parse_admin_id}
use lowcode_wrapper.Admin.Handlers.{
  HttpRequest, Process, write_denied, admin_write_denied, write, erase, credentials,
  credential_by_id, servers, server_by_id, tables, table_columns, table_at, table_by_id,
  column_by_id, functions, function_by_id, health, health_ready, list_or_create, get_or_change,
}

abbrev pub is_get : HttpRequest → Bool
is_get r = text_eq r.method (text "GET")

abbrev pub is_refusal : Reply → Bool
is_refusal reply = leb 400 reply.status

-- Both branches of an `if` have the property.
pub if-Both :
    {A : Type 0} (Q : A → Type 0) (b : Bool) (t u : A)
    → (b ≡ true → Q t)
    → (b ≡ false → Q u)
    → Q (if b then t else u)
if-Both Q true t u h k = h refl
if-Both Q false t u h k = k refl

-- `R` of the answer_result and the store after it: it holds of refusals and answers to a `GET` that leave the
-- store as it is, and where writes are not denied of every answer_result and any store that the operations
-- lead to.
pub record Rules {S E : Type 0} (store : MetaStore S E) (mode : Text) (r : HttpRequest) (s : S)
    (R : Reply → S → Type 0) : Type 0 where
  pub refusal : (reply : Reply) → is_refusal reply ≡ true → R reply s
  pub seen : is_get r ≡ true → (reply : Reply) → R reply s
  pub changes : admin_write_denied mode ≡ false → Leads store s (λ t. (reply : Reply) → R reply t)

module _ {S E : Type 0} (store : MetaStore S E) (mode : Text) (p : Process) (r : HttpRequest)
    (s : S) (R : Reply → S → Type 0) (rules : Rules store mode r s R) where
  abbrev pub Holds : Reply × S → Type 0
  Holds x = R x.0 x.1

  error-refusal : (missing : Bool) (e : Text) → is_refusal (write_admin_error missing e) ≡ true
  unfolding write_admin_error
  error-refusal true e = refl
  error-refusal false e = refl

  write-Holds :
      {B A : Type 0} (decode : Text → Result Text B) (change : B → Change S E A) (status : ℕ)
      (body : A → Body)
      → (Leads store s (λ t. (reply : Reply) → R reply t)
          → (b : B) (reply : Reply) → R reply (change b s).1)
      → Holds (write store mode p decode change status body r.content s)
  unfolding write
  write-Holds decode change status body c = elim (Bool-cases (admin_write_denied mode)) [
    | inl denied ↦ rw denied (rules.refusal write_denied refl)
    | inr allowed ↦ elim (Result-cases (decode r.content)) [
      | inr (e, failed) ↦ rw (allowed, failed) (rules.refusal _ (error-refusal false e))
      | inl (b, decoded) ↦ rw (allowed, decoded) (c (rules.changes allowed) b _)
    ]
  ]

  erase-Holds :
      (change : Change S E (Unit {0}))
      → (Leads store s (λ t. (reply : Reply) → R reply t) → (reply : Reply) → R reply (change s).1)
      → Holds (erase store mode p change s)
  unfolding erase
  erase-Holds change c = elim (Bool-cases (admin_write_denied mode)) [
    | inl denied ↦ rw denied (rules.refusal write_denied refl)
    | inr allowed ↦ rw allowed (c (rules.changes allowed) _)
  ]

  list_or_create-Holds :
      (list create : Reply × S)
      → (is_get r ≡ true → Holds list)
      → Holds create
      → Holds (list_or_create store mode p r.method (λ _. list) (λ _. create) s)
  list_or_create-Holds list create l c =
      if-Both Holds (is_get r) _ _ l (λ _.
        if-Both Holds (text_eq r.method (text "POST")) _ _ (λ _. c) (λ _. rules.refusal _ refl))

  get_or_change-Holds :
      (get patch delete : Reply × S)
      → (is_get r ≡ true → Holds get)
      → Holds patch
      → Holds delete
      → Holds (get_or_change store mode p r.method (λ _. get) (λ _. patch) (λ _. delete) s)
  get_or_change-Holds get patch delete g c d = if-Both Holds (is_get r) _ _ g (λ _.
      if-Both Holds (text_eq r.method (text "PATCH")) _ _ (λ _. c)
        (λ _.
          if-Both Holds (text_eq r.method (text "DELETE")) _ _ (λ _. d)
            (λ _. rules.refusal _ refl)))

  pub health-Holds : R (health p r) s
  unfolding health
  health-Holds =
      if-Both (λ reply. R reply s) (not (is_get r)) _ _ (λ _. rules.refusal _ refl)
        (λ get. rules.seen (ground arith) _)

  pub health_ready-Holds : R (health_ready p r) s
  unfolding health_ready
  health_ready-Holds =
      if-Both (λ reply. R reply s) (not (is_get r)) _ _ (λ _. rules.refusal _ refl)
        (λ get. rules.seen (ground arith) _)

  pub credentials-Holds : Holds (credentials store mode p r s)
  unfolding credentials
  credentials-Holds =
      if-Both Holds (not (text_eq r.method (text "POST"))) _ _ (λ _. rules.refusal _ refl)
        (λ _.
          write-Holds p.decode.credential (λ (b : Text × Fields). store.create_credential b.0 b.1)
            201 credential_of (λ leads b. leads.create_credential b.0 b.1))

  pub credential_by_id-Holds : Holds (credential_by_id store mode p r s)
  unfolding credential_by_id
  credential_by_id-Holds =
      if-Both Holds (not (text_eq r.method (text "DELETE"))) _ _ (λ _. rules.refusal _ refl)
        (λ _.
          if-Both Holds (admin_write_denied mode) _ _ (λ _. rules.refusal _ refl)
            (λ _.
              elim (Option-cases
                (parse_admin_id p.parse_uuid r.path (admin_prefix ++ text "/credentials/"))) [
                  | inl none_there ↦ rw none_there (rules.refusal _ refl)
                  | inr (id, found) ↦ rw found (
                      erase-Holds (store.delete_credential id)
                        (λ leads. leads.delete_credential id))
                ]))

  pub servers-Holds : Holds (servers store mode p r s)
  unfolding servers
  servers-Holds =
      list_or_create-Holds _ _ (λ get. rules.seen get _)
        (write-Holds p.decode.server store.create_server 201 server_of
          (λ leads b. leads.create_server b))

  pub server_by_id-Holds : Holds (server_by_id store mode p r s)
  unfolding server_by_id
  server_by_id-Holds =
      elim (Option-cases (parse_admin_id p.parse_uuid r.path (admin_prefix ++ text "/servers/"))) [
        | inl none_there ↦ rw none_there (rules.refusal _ refl)
        | inr (id, found) ↦ rw found (
            get_or_change-Holds _ _ _ (λ get. rules.seen get _)
              (write-Holds p.decode.server_change (store.update_server id) 200 server_of
                (λ leads b. leads.update_server id b))
              (erase-Holds (store.delete_server id) (λ leads. leads.delete_server id)))
      ]

  pub tables-Holds : Holds (tables store mode p r s)
  unfolding tables
  tables-Holds =
      list_or_create-Holds _ _ (λ get. rules.seen get _)
        (write-Holds p.decode.table store.create_table 201 created_table
          (λ leads b. leads.create_table b))

  table_columns-Holds : (id : Uuid) → Holds (table_columns store mode p r id s)
  unfolding table_columns
  table_columns-Holds id =
      list_or_create-Holds _ _ (λ get. rules.seen get _)
        (write-Holds p.decode.column (store.create_column id) 201 column_of
          (λ leads b. leads.create_column id b))

  table_at-Holds : (id : Uuid) (tail : List Text) → Holds (table_at store mode p r id tail s)
  unfolding table_at
  table_at-Holds id [] =
      get_or_change-Holds _ _ _ (λ get. rules.seen get _)
        (write-Holds p.decode.table_change (store.update_table id) 200 table_of
          (λ leads b. leads.update_table id b))
        (erase-Holds (store.delete_table id) (λ leads. leads.delete_table id))
  table_at-Holds id (part ∷ []) =
      if-Both Holds (text_eq part (text "columns")) _ _ (λ _. table_columns-Holds id)
        (λ _. rules.refusal _ refl)
  table_at-Holds id (part ∷ more ∷ tail) = rules.refusal _ refl

  pub table_by_id-Holds : Holds (table_by_id store mode p r s)
  unfolding table_by_id
  table_by_id-Holds =
      elim (Option-cases
        (parse_admin_id_tail p.parse_uuid r.path (admin_prefix ++ text "/tables/"))) [
          | inl none_there ↦ rw none_there (rules.refusal _ refl)
          | inr (found_at, found) ↦ rw found (table_at-Holds found_at.0 found_at.1)
        ]

  pub column_by_id-Holds : Holds (column_by_id store mode p r s)
  unfolding column_by_id
  column_by_id-Holds =
      elim (Option-cases (parse_admin_id p.parse_uuid r.path (admin_prefix ++ text "/columns/"))) [
        | inl none_there ↦ rw none_there (rules.refusal _ refl)
        | inr (id, found) ↦ rw found (
            get_or_change-Holds _ _ _ (λ get. rules.seen get _)
              (write-Holds p.decode.column_change (store.update_column id) 200 column_of
                (λ leads b. leads.update_column id b))
              (erase-Holds (store.delete_column id) (λ leads. leads.delete_column id)))
      ]

  pub functions-Holds : Holds (functions store mode p r s)
  unfolding functions
  functions-Holds =
      list_or_create-Holds _ _ (λ get. rules.seen get _)
        (write-Holds p.decode.function store.create_function 201 function_of
          (λ leads b. leads.create_function b))

  pub function_by_id-Holds : Holds (function_by_id store mode p r s)
  unfolding function_by_id
  function_by_id-Holds =
      elim (Option-cases
        (parse_admin_id p.parse_uuid r.path (admin_prefix ++ text "/functions/"))) [
          | inl none_there ↦ rw none_there (rules.refusal _ refl)
          | inr (id, found) ↦ rw found (
              get_or_change-Holds _ _ _ (λ get. rules.seen get _)
                (write-Holds p.decode.function_change (store.update_function id) 200 function_of
                  (λ leads b. leads.update_function id b))
                (erase-Holds (store.delete_function id) (λ leads. leads.delete_function id)))
        ]
