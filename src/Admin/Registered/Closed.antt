-- ===== src/Admin/Registered/Closed.antt =====
-- The admin API before a store that is a file, and the way of every request through `Register`.
use lowcode_wrapper.Base.{
  Bool, true, ◌||◌, List, [], ◌∷◌, all, Text, text_eq, ◌≡◌, refl, ◌∙◌, arith,
}
use lowcode_wrapper.Admin.Interface.{MetaStore, mode_file, Reply}
use lowcode_wrapper.Admin.Handlers.{HttpRequest, Process, admin_write_denied}
use lowcode_wrapper.Admin.Handlers.Guarded.{
  is_get, is_refusal, if-Both, Rules, health-Holds, health_ready-Holds, credentials-Holds,
  credential_by_id-Holds, servers-Holds, server_by_id-Holds, tables-Holds, table_by_id-Holds,
  column_by_id-Holds, functions-Holds, function_by_id-Holds,
}
use lowcode_wrapper.Admin.Registered.{Handler, is_matched, patterns, dispatch, serve, serve_all}

module _ {S E : Type 0} (store : MetaStore S E) (mode : Text) (p : Process) (r : HttpRequest)
    (s : S) (R : Reply → S → Type 0) (rules : Rules store mode r s R) where
  abbrev AllHold : List (Text × Handler store mode p) → Type 0
  AllHold [] = Unit
  AllHold ((pattern, handler) ∷ rest) = R (handler r s).0 (handler r s).1 × AllHold rest

  dispatch-Holds :
      (list : List (Text × Handler store mode p))
      → AllHold list
      → R (dispatch store mode p list r s).0 (dispatch store mode p list r s).1
  unfolding dispatch
  dispatch-Holds [] h = rules.refusal _ refl
  dispatch-Holds ((pattern, handler) ∷ rest) (h, hs) =
      if-Both (λ (x : Reply × S). R x.0 x.1) (is_matched store mode p pattern r.path) _ _ (λ _. h)
        (λ _. dispatch-Holds rest hs)

  pub serve-Holds : R (serve store mode p r s).0 (serve store mode p r s).1
  unfolding serve patterns
  serve-Holds = dispatch-Holds (patterns store mode p) (
    health-Holds store mode p r s R rules,
    (
      health_ready-Holds store mode p r s R rules,
      (
        credentials-Holds store mode p r s R rules,
        (
          credential_by_id-Holds store mode p r s R rules,
          (
            servers-Holds store mode p r s R rules,
            (
              server_by_id-Holds store mode p r s R rules,
              (
                tables-Holds store mode p r s R rules,
                (
                  table_by_id-Holds store mode p r s R rules,
                  (
                    column_by_id-Holds store mode p r s R rules,
                    (
                      functions-Holds store mode p r s R rules,
                      (function_by_id-Holds store mode p r s R rules, tt),
                    ),
                  ),
                ),
              ),
            ),
          ),
        ),
      ),
    ),
  )

file_rules :
    {S E : Type 0} (store : MetaStore S E) (r : HttpRequest) (s : S)
    → Rules store mode_file r s (λ reply t. (t ≡ s) × (is_get r || is_refusal reply ≡ true))
unfolding admin_write_denied text_eq
file_rules store r s = record {
  refusal = λ reply h. (refl, ground arith);
  seen = λ get reply. (refl, ground arith);
  changes = λ writable. absurd (ground arith);
}

-- A request and its answer: it is a `GET`, or the status of the answer is 400 or more.
abbrev pub is_read_or_refused : HttpRequest × Reply → Bool
is_read_or_refused (r, reply) = is_get r || is_refusal reply

-- With the mode for a drivers file no request of the admin API, imports aside, changes the store,
-- whatever the store is and however its operations end; and of any sequence of requests each one that
-- is no `GET` is answered with a status of 400 or more.
pub serve_all-file :
    {S E : Type 0} (p : Process) (calls : List (MetaStore S E × HttpRequest)) (s : S)
    → ((serve_all mode_file p calls s).1 ≡ s)
      × (all is_read_or_refused (serve_all mode_file p calls s).0 ≡ true)
unfolding serve_all
serve_all-file p [] s = (refl, refl)
serve_all-file p ((store, r) ∷ calls) s =
    let (kept, refused) = serve-Holds store mode_file p r s _ (file_rules store r s) in
    let (later, others) = serve_all-file p calls (serve store mode_file p r s).1 in
    (later ∙ kept, ground (arith, refused, others))
