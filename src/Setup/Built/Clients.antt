-- ===== src/Setup/Built/Clients.antt =====
-- The clients of the followers that `NewCommitServer` makes (server/server.go, peer/peer.go).
use committer.Prelude.{suc, ◌≡◌, refl, sym, ap, ◌∙◌, String, Option, List, [], ◌∷◌, length}
use committer.Database.{Database, Result, ok, err}
use committer.Setup.{World, ◌>>=◌, or_wrap, CommitClient, new_client}

pub >>=-eq_ok :
    {A B : Type 0} (m : Result A) (f : A → Result B) (b : B)
    → (m >>= f) ≡ ok b
    → (a : A) × (m ≡ ok a) × (f a ≡ ok b)
>>=-eq_ok (ok a) f b h = (a, refl, h)
>>=-eq_ok (err e) f b h = cc

module _ (database : Database) (world : World database) where
  -- The clients of some addresses, in their order: each over the connection that its address was
  -- dialled to with a tracer, which it keeps.
  abbrev pub Dialled :
      Option world.Tracer → List String → List (CommitClient database world) → Type 0
  Dialled t [] [] = Unit
  Dialled t [] (c ∷ cs) = ⊥
  Dialled t (node ∷ nodes) [] = ⊥
  Dialled t (node ∷ nodes) (c ∷ cs) =
      (world.grpc_dial node t ≡ ok c.connection) × (c.tracer ≡ t) × Dialled t nodes cs

  pub Dialled-length :
      (t : Option world.Tracer) (nodes : List String) (cs : List (CommitClient database world))
      → Dialled t nodes cs
      → length cs ≡ length nodes
  Dialled-length t [] [] d = refl
  Dialled-length t [] (c ∷ cs) d = absurd d
  Dialled-length t (node ∷ nodes) [] d = absurd d
  Dialled-length t (node ∷ nodes) (c ∷ cs) d = ap suc (Dialled-length t nodes cs d.2)

  or_wrap-ok :
      {A : Type 0} (text : String) (r : Result A) (a : A) → or_wrap text r ≡ ok a → r ≡ ok a
  or_wrap-ok text (ok x) a h = h
  or_wrap-ok text (err e) a h = cc

  pub new_client-ok :
      (node : String) (t : Option world.Tracer) (c : CommitClient database world)
      → new_client database world node t ≡ ok c
      → (world.grpc_dial node t ≡ ok c.connection) × (c.tracer ≡ t)
  unfolding new_client
  new_client-ok node t c h =
      let (conn, dialled, made) =
        >>=-eq_ok (or_wrap "failed to connect" (world.grpc_dial node t)) _ c h in
      let client : record { connection = conn; tracer = t } ≡ c = cc made in
      (
        or_wrap-ok "failed to connect" (world.grpc_dial node t) conn dialled
            ∙ ap (λ (x : CommitClient database world). ok x.connection) client,
        sym (ap (λ (x : CommitClient database world). x.tracer) client),
      )
