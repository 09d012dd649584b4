-- ===== src/FileStore/Compile/Inline.antt =====
-- The inline credential of a server with the name of a listed credential.
use lowcode_wrapper.Base.{
  Bool, true, false, ◌||◌, Option, none, some, is_some, List, [], ◌∷◌, ◌++◌, any, Text, text_eq,
  text_eq_iff, trim_space, trim_space-trim_space, if◌then◌else◌, is_empty, Result, ok, err, ◌>>=◌,
  ◌≡◌, refl, ap, ◌∙◌, arith, Bool-cases, Option-cases, inl, inr,
}
use lowcode_wrapper.Models.{Uuid, Fields}
use lowcode_wrapper.FileStore.Declarative.{DeclCredential, DeclServer, DeclTable, DeclFunction}
use lowcode_wrapper.FileStore.Compile.{
  Source, CompileError, Compiler, id_of, start, each, options_node, register_cred,
  compile_credentials, credential_ref_of, compile_server, finish_server, server_requires,
  compile_table, compile_function, compile_declarative,
}
use lowcode_wrapper.FileStore.Compile.Rules.{
  Then, >>=-Then, if-Then, if_false-Then, Always, always, register_cred-Then,
  compile_credentials-Then, compile_server-Then,
}

abbrev pub is_named : Text → DeclCredential → Bool
is_named k c = text_eq (trim_space c.name) k

abbrev Knows : Text → Compiler → Type 0
Knows k st = is_some (id_of k st.cred_ids) ≡ true

abbrev inline : DeclServer → Fields → DeclServer
inline s fields = record s { credential = record { name = []; fields = fields } }

module _ (src : Source) (k : Text) where
  register_cred-Knows :
      (given : Text) (fields : Fields) (st : Compiler)
      → Knows k st
      → Then (λ (r : Uuid × Compiler). Knows k r.1) (register_cred src given fields st)
  register_cred-Knows given fields st h =
      register_cred-Then src (λ r. Knows k r.1) given fields st (λ id known. h)
        (λ payload. ground (arith, h))

  register_cred-new :
      (given : Text) (fields : Fields) (st : Compiler)
      → text_eq (trim_space given) k ≡ true
      → Then (λ (r : Uuid × Compiler). Knows k r.1) (register_cred src given fields st)
  register_cred-new given fields st h =
      register_cred-Then src (λ r. Knows k r.1) given fields st
        (λ id known. rw (← (text_eq_iff (trim_space given) k).0 h) (rw known refl))
        (λ payload. ground (arith, h))

  compile_credentials-Knows :
      (cs : List DeclCredential) (st : Compiler)
      → Knows k st
      → Then (Knows k) (compile_credentials src cs st)
  compile_credentials-Knows = compile_credentials-Then src (Knows k) register_cred-Knows

  compile_credentials-listed :
      (cs : List DeclCredential) (st : Compiler)
      → is_empty k ≡ false
      → any (is_named k) cs ≡ true
      → Then (Knows k) (compile_credentials src cs st)
  unfolding compile_credentials
  compile_credentials-listed [] st n h = cc
  compile_credentials-listed (c ∷ cs) st n h = elim (Bool-cases (is_named k c)) [
    | inl here ↦
        let named : is_empty (trim_space c.name) ≡ false =
          ap is_empty ((text_eq_iff (trim_space c.name) k).0 here) ∙ n in
        if_false-Then (Knows k) (is_empty (trim_space c.name)) (compile_credentials src cs st)
          (register_cred src c.name c.fields st >>= (λ r. compile_credentials src cs r.1)) named
          (>>=-Then (λ r. Knows k r.1) (Knows k) (register_cred src c.name c.fields st)
            (λ r. compile_credentials src cs r.1) (register_cred-new c.name c.fields st here)
            (λ r h'. compile_credentials-Knows cs r.1 h'))
    | inr there ↦
        if-Then (Knows k) (is_empty (trim_space c.name)) (compile_credentials src cs st)
          (register_cred src c.name c.fields st >>= (λ r. compile_credentials src cs r.1))
          (compile_credentials-listed cs st n (ground arith))
          (>>=-Then Always (Knows k) (register_cred src c.name c.fields st)
            (λ r. compile_credentials src cs r.1) (always (register_cred src c.name c.fields st))
            (λ r _. compile_credentials-listed cs r.1 n (ground arith)))
  ]

module _ (src : Source) where
  register_cred-known :
      (given : Text) (a b : Fields) (st : Compiler)
      → Knows (trim_space given) st
      → register_cred src given a st ≡ register_cred src given b st
  unfolding register_cred
  register_cred-known given a b st h = elim (Option-cases (id_of (trim_space given) st.cred_ids)) [
    | inl new ↦ let no : is_some {A = Uuid} none ≡ true = rw new at h in cc
    | inr (id, known) ↦ rw known refl
  ]

  credential_ref_of-known :
      (s : DeclServer) (a b : Fields) (st : Compiler)
      → is_empty a ≡ false
      → is_empty b ≡ false
      → Knows (trim_space s.name) st
      → credential_ref_of src (trim_space s.name) (inline s a) st
        ≡ credential_ref_of src (trim_space s.name) (inline s b) st
  unfolding credential_ref_of
  credential_ref_of-known s a b st x y h =
      let known : Knows (trim_space (trim_space s.name)) st = rw (trim_space-trim_space s.name) h in
      rw (x, y)
        (ap (λ m. m >>= (λ r. ok (some r.0, r.1)))
          (register_cred-known (trim_space s.name) a b st known))

  compile_server-known :
      (s : DeclServer) (a b : Fields) (st : Compiler)
      → is_empty a ≡ false
      → is_empty b ≡ false
      → Knows (trim_space s.name) st
      → compile_server src (inline s a) st ≡ compile_server src (inline s b) st
  unfolding compile_server
  compile_server-known s a b st x y h =
      ap
        (λ (m : Result CompileError (Option Uuid × Compiler)).
          if is_empty (trim_space s.name) || is_empty (trim_space s.protocol)
          then err server_requires
          else options_node src (trim_space s.name) s.options
            >>= (λ opts. m >>= finish_server src s opts))
        (credential_ref_of-known s a b st x y h)

  -- Go on with equal functions.
  >>=-known :
      {E A B : Type 0} (P : A → Type 0) (m : Result E A) (f g : A → Result E B)
      → Then P m
      → ((a : A) → P a → f a ≡ g a)
      → (m >>= f) ≡ (m >>= g)
  >>=-known P (ok a) f g h e = e a h
  >>=-known P (err x) f g h e = refl

  credential_ref_of-Knows :
      (k name : Text) (s : DeclServer) (st : Compiler)
      → Knows k st
      → Then (λ (r : Option Uuid × Compiler). Knows k r.1) (credential_ref_of src name s st)
  unfolding credential_ref_of
  credential_ref_of-Knows k name s st h =
      let P = λ (r : Option Uuid × Compiler). Knows k r.1 in
      let ref = trim_space s.credential.name in
      if-Then P (is_empty s.credential.fields) _ _
        (if-Then P (is_empty ref) (ok (none, st)) _ h (elim (Option-cases (id_of ref st.cred_ids)) [
          | inl unknown ↦ rw unknown tt
          | inr (id, known) ↦ rw known h
        ]))
        (>>=-Then (λ (r : Uuid × Compiler). Knows k r.1) P
          (register_cred src name s.credential.fields st) _
          (register_cred-Knows src k name s.credential.fields st h) (λ r h'. h'))

  compile_server-Knows :
      (k : Text) (s : DeclServer) (st : Compiler)
      → Knows k st
      → Then (Knows k) (compile_server src s st)
  compile_server-Knows k s st h =
      compile_server-Then src (λ r. Knows k r.1) (Knows k) s st
        (credential_ref_of-Knows k (trim_space s.name) s st h) (λ opts r h'. h')

  each_server-known :
      (before : List DeclServer) (s : DeclServer) (after : List DeclServer) (a b : Fields)
      (st : Compiler)
      → is_empty a ≡ false
      → is_empty b ≡ false
      → Knows (trim_space s.name) st
      → each (compile_server src) (before ++ inline s a ∷ after) st
        ≡ each (compile_server src) (before ++ inline s b ∷ after) st
  each_server-known [] s after a b st x y h =
      ap (λ m. m >>= each (compile_server src) after) (compile_server-known s a b st x y h)
  each_server-known (t ∷ before) s after a b st x y h =
      >>=-known (Knows (trim_space s.name)) (compile_server src t st) _ _
        (compile_server-Knows (trim_space s.name) t st h)
        (λ st' h'. each_server-known before s after a b st' x y h')

  -- Wherever a server stands in the document: its inline credential is ignored where a listed
  -- credential has the server's name, and another one in its place compiles to the same result. Names are
  -- compared without the white space around them.
  pub compile_declarative-inline :
      (cs : List DeclCredential) (before : List DeclServer) (s : DeclServer)
      (after : List DeclServer) (ts : List DeclTable) (fs : List DeclFunction) (a b : Fields)
      → is_empty (trim_space s.name) ≡ false
      → any (is_named (trim_space s.name)) cs ≡ true
      → is_empty a ≡ false
      → is_empty b ≡ false
      → compile_declarative src (record {
        credentials = cs;
        servers = before ++ inline s a ∷ after;
        tables = ts;
        functions = fs;
      })
        ≡ compile_declarative src (record {
          credentials = cs;
          servers = before ++ inline s b ∷ after;
          tables = ts;
          functions = fs;
        })
  unfolding compile_declarative
  compile_declarative-inline cs before s after ts fs a b n h x y =
      ap
        (λ m.
          m
          >>= each (compile_table src) ts
          >>= each (compile_function src) fs
          >>= (λ st. ok st.out))
        (>>=-known (Knows (trim_space s.name)) (compile_credentials src cs start) _ _
          (compile_credentials-listed src (trim_space s.name) cs start n h)
          (λ st known. each_server-known before s after a b st x y known))
