-- ===== src/Rest/Handlers/Answers.antt =====
-- The answers for a table that is not registered.
use lowcode_wrapper.Base.{false, none, List, [], ◌∷◌, Text, text, any, ◌≡◌}
use lowcode_wrapper.Models.{Time}
use lowcode_wrapper.FileStore.Tables.{same_table}
use lowcode_wrapper.Postgrest.Query.{Query}
use lowcode_wrapper.Postgrest.Errors.{table_not_found}
use lowcode_wrapper.Engine.Action.{Services, EngineState}
use lowcode_wrapper.Rest.Body.{Writer, new_writer}
use lowcode_wrapper.Rest.Handlers.{write_api_error}

abbrev pub table_methods : List Text
table_methods = text "GET" ∷ text "POST" ∷ text "PATCH" ∷ text "DELETE" ∷ []

module _ {W : Type 0} (sv : Services W) (now : Time) (schema table : Text) (st : EngineState W)
    (uncached : st.meta ≡ none)
    (missing : any (same_table schema table) st.store.tables ≡ false) where
  abbrev no_such_table : Writer × EngineState W
  no_such_table = (write_api_error (table_not_found schema table) new_writer, st)
