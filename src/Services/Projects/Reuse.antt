-- ===== src/Services/Projects/Reuse.antt =====
-- A project is created once: what `getOrCreateProjectCache` stored is what it returns from then on.
use authzcache.Base.{◌≡◌, refl, ◌∙◌, ap, Option, none, some, arith, Text, text_eq}
use authzcache.Base.Map.{lookup, lookup-insert_self}
use authzcache.Cache.{Externals, ProjectCache, new_project_authz_cache}
use authzcache.Services.Backend.{Reply, replied, failed, Backend}
use authzcache.Services.Projects.{
  Project, Service, store_project, create_project, load_project, get_or_create_project_cache,
}

module _ {x : Externals} (b : Backend x) where
  -- The reply is the project that the service has under the id.
  abbrev pub Stored : Text → Reply (Project b) × Service b → Type 0
  Stored id (failed e, s) = Unit {0}
  Stored id (replied p, s) = lookup id s.projects ≡ some p

  store_project-Stored :
      (id : Text) (client : b.Client) (made : Option (ProjectCache x)) (s : Service b)
      → Stored id (store_project b id client made s)
  unfolding store_project
  store_project-Stored id client none s = tt
  store_project-Stored id client (some pc) s = lookup-insert_self id _ s.projects

  create_project-Stored :
      (id : Text) (reply : Reply b.Client) (s : Service b) → Stored id (create_project b id reply s)
  unfolding create_project
  create_project-Stored id (failed e) s = tt
  create_project-Stored id (replied client) s =
      let (now, w) = b.read_clock s.world in
      store_project-Stored id client (new_project_authz_cache x s.settings now)
        (record s { world = w })

  load_project-Stored :
      (id : Text) (found : Option (Project b)) (s : Service b)
      → lookup id s.projects ≡ found
      → Stored id (load_project b id found s)
  unfolding load_project
  load_project-Stored id (some p) s e = e
  load_project-Stored id none s e =
      let (reply, w) = b.new_client id s.world in
      create_project-Stored id reply (record s { world = w })

  Stored-reply :
      (id : Text) (out : Reply (Project b) × Service b) (p : Project b)
      → Stored id out
      → out.0 ≡ replied p
      → lookup id out.1.projects ≡ some p
  Stored-reply id (failed e, s) p h r = absurd (ground arith)
  Stored-reply id (replied q, s) p h r = let e : q ≡ p = ground arith in h ∙ ap some e

  -- Once a project was returned, asking for it again returns the same cache and client and changes
  -- nothing of the service, the world included.
  pub project_reused :
      (ctx : x.cel.Context) (p : Project b) (s : Service b)
      → (get_or_create_project_cache b ctx s).0 ≡ replied p
      → get_or_create_project_cache b ctx (get_or_create_project_cache b ctx s).1
        ≡ (replied p, (get_or_create_project_cache b ctx s).1)
  unfolding get_or_create_project_cache load_project
  project_reused ctx p s e =
      let id = b.project_id ctx in
      let out = load_project b id (lookup id s.projects) s in
      ap (λ found. load_project b id found out.1)
        (Stored-reply id out p (load_project-Stored id (lookup id s.projects) s refl) e)
