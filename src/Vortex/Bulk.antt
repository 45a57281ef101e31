-- ===== src/Vortex/Bulk.antt =====
-- manipvortex/manipulator.go: `RetrieveMany`, `Count` and `DeleteMany`, which go by an identity. The
-- manipulators, the prefetcher and the hooks of the processors are parameters.
use manipulate.Prelude.{
  ℕ, String, ◌<>◌, Bool, true, false, not, ◌&&◌, Option, none, some, List, [], if◌then◌else◌,
}
use manipulate.Prelude.Dict.{lookup}
use manipulate.Errors.{Error, foreign, message}
use manipulate.Context.{Types, Context, derive}
use manipulate.Iter.{RetrieveMany, Retrieved}
use manipulate.Vortex.Commit.{Writer, Vortex}
use manipulate.Vortex.Writes.{is_nil, context_or_new}
use manipulate.Vortex.Reads.{Access, Prefetched, unable, fetched, insert_prefetched_data}

-- elemental.Identity, as far as the code reads it.
pub record Identity : Type 0 where
  pub name : String
  pub category : String

-- RetrieveManyHook: what it leaves in the list and the store, its error, and whether to go on.
pub record Hooked (T : Types) (Down : Type 0) : Type 0 where
  pub commit : Bool
  pub left : Retrieved T Down

abbrev Hook : Types → Type 0 → Type 0
Hook T Down = Context T → List T.Identifiable → Down → Hooked T Down

-- What the operations use beside the access to single objects. `hook_of` is the field
-- RetrieveManyHook of the processor of a name, and `identity_text` prints an identity.
pub record Bulk (T : Types) (Up Down : Type 0) : Type 0 where
  pub access : Access T Up Down
  pub retrieve_many_up : Identity → RetrieveMany T Up
  pub retrieve_many_down : Identity → RetrieveMany T Down
  pub prefetch_many : Option (Context T → Identity → Up → Prefetched T.Identifiable × Up)
  pub hook_of : String → Option (Hook T Down)
  pub delete_many_up : Context T → Identity → Up → Option Error × Up
  pub count_down : Context T → Identity → Down → (Option Error × ℕ) × Down
  pub identity_text : Identity → String

module _ {T : Types} {Up Down : Type 0} (bulk : Bulk T Up Down) where
  open bulk use {access}

  -- A list that is left as it was, with an error or none.
  abbrev unread :
      Context T
      → List T.Identifiable
      → Option Error × Vortex T Up Down
      → Retrieved T (Vortex T Up Down)
  unread mctx dest (e, v) = record { error = e; objects = dest; mctx = mctx; state = v }

  abbrev from_up : Vortex T Up Down → Retrieved T Up → Retrieved T (Vortex T Up Down)
  from_up v r = record {
    error = r.error;
    objects = r.objects;
    mctx = r.mctx;
    state = record v { up = r.state };
  }

  abbrev from_down : Vortex T Up Down → Retrieved T Down → Retrieved T (Vortex T Up Down)
  from_down v r = record {
    error = r.error;
    objects = r.objects;
    mctx = r.mctx;
    state = record v { down = r.state };
  }

  -- shouldProcess, for an identity.
  unfoldable pub should_process_name : Context T → String → Bool
  unfolding lookup
  should_process_name mctx name =
      not (is_nil (lookup name access.settings.processors)) && is_nil mctx.parent

  abbrev many_upstream :
      Option (Writer T Up)
      → Context T
      → Identity
      → List T.Identifiable
      → Vortex T Up Down
      → Retrieved T (Vortex T Up Down)
  many_upstream none mctx identity dest v = unread mctx dest (none, v)
  many_upstream (some upstream) mctx identity dest v =
      from_up v (bulk.retrieve_many_up identity mctx dest v.up)

  -- After the hook: its error, which is dropped if the hook says to go on, or the downstream store.
  abbrev after_hook :
      Bool → Identity → Retrieved T Down → Vortex T Up Down → Retrieved T (Vortex T Up Down)
  after_hook false identity r v = from_down v r
  after_hook true identity r v =
      from_down v (bulk.retrieve_many_down identity r.mctx r.objects r.state)

  abbrev many_hooked :
      Option (Hook T Down)
      → Context T
      → Identity
      → List T.Identifiable
      → Vortex T Up Down
      → Retrieved T (Vortex T Up Down)
  many_hooked none mctx identity dest v =
      from_down v (bulk.retrieve_many_down identity mctx dest v.down)
  many_hooked (some hook) mctx identity dest v =
      let h = hook mctx dest v.down in after_hook h.commit identity h.left v

  abbrev many_error : String → Identity → Error → Error
  many_error what identity e = foreign (
      "unable to "
      <> what
      <> " data for retrieve many operation for '"
      <> bulk.identity_text identity
      <> "': "
      <> message e)

  abbrev after_many_insert :
      Identity → Option Error × Vortex T Up Down → Option Error × Vortex T Up Down
  after_many_insert identity (some e, v) = (some (many_error "insert prefetched" identity e), v)
  after_many_insert identity (none, v) = (none, v)

  abbrev after_many_prefetch :
      Identity → Prefetched T.Identifiable → Vortex T Up Down → Option Error × Vortex T Up Down
  after_many_prefetch identity (unable e) v = (some (many_error "prefetch" identity e), v)
  after_many_prefetch identity (fetched items) v =
      after_many_insert identity (insert_prefetched_data access items v)

  abbrev prefetch_many_by :
      Option (Context T → Identity → Up → Prefetched T.Identifiable × Up)
      → Context T
      → Identity
      → Vortex T Up Down
      → Option Error × Vortex T Up Down
  prefetch_many_by none mctx identity v = (none, v)
  prefetch_many_by (some prefetch) mctx identity v =
      let (answer, up) = prefetch (derive mctx []) identity v.up in
      after_many_prefetch identity answer (record v { up = up })

  abbrev many_prefetched :
      Context T
      → Identity
      → List T.Identifiable
      → Option Error × Vortex T Up Down
      → Retrieved T (Vortex T Up Down)
  many_prefetched mctx identity dest (some e, v) = unread mctx dest (some e, v)
  many_prefetched mctx identity dest (none, v) =
      if should_process_name mctx identity.name
      then many_hooked (bulk.hook_of identity.name) mctx identity dest v
      else many_upstream access.settings.upstream mctx identity dest v

  unfoldable pub retrieve_many :
      Option (Context T)
      → Identity
      → List T.Identifiable
      → Vortex T Up Down
      → Retrieved T (Vortex T Up Down)
  retrieve_many mctx identity dest v =
      let c = context_or_new access.settings mctx in
      many_prefetched c identity dest (prefetch_many_by bulk.prefetch_many c identity v)

  abbrev delete_many_by :
      Option (Writer T Up)
      → Context T
      → Identity
      → Vortex T Up Down
      → Option Error × Vortex T Up Down
  delete_many_by none mctx identity v =
      (some (foreign "delete many not supported by vortexManipulator"), v)
  delete_many_by (some upstream) mctx identity v =
      let (e, up) = bulk.delete_many_up mctx identity v.up in (e, record v { up = up })

  unfoldable pub delete_many :
      Option (Context T) → Identity → Vortex T Up Down → Option Error × Vortex T Up Down
  delete_many mctx identity v =
      delete_many_by access.settings.upstream (context_or_new access.settings mctx) identity v

  -- `New` has refused a nil downstream manipulator.
  unfoldable pub count :
      Option (Context T) → Identity → Vortex T Up Down → (Option Error × ℕ) × Vortex T Up Down
  count mctx identity v =
      let (answer, down) = bulk.count_down (context_or_new access.settings mctx) identity v.down in
      (answer, record v { down = down })
