-- ===== src/CAbi/Handle.antt =====
-- src/nyxstone_c.cpp, `nyxstone_create` and `nyxstone_destroy`.
pub mod Lifetime
use nyxstone_tricore_gcc.Base.{ℕ, Bool, Option, none, some, Bytes, codes, c_str}
use nyxstone_tricore_gcc.Expected.{Expected, value, error}
use nyxstone_tricore_gcc.Api.{create}
use nyxstone_tricore_gcc.GlueLayer.Startup.{Startup, SetupState, init_once}
use nyxstone_tricore_gcc.CAbi.Store.{Block, class_object, handle_block, Store, added, malloc, free}
use nyxstone_tricore_gcc.CAbi.Entry.{what, set_err}

-- What `nyxstone_create` leaves: the handle, `*out_err` and the memory.
pub record Created : Type 0 where
  pub result : Option ℕ
  pub message : Option ℕ
  pub store : Store

-- The object that a handle owns.
unfoldable pub inner_of : Option Block → Option ℕ
inner_of (some (handle_block p)) = some p
inner_of _ = none

unfoldable pub nyxstone_destroy : Option ℕ → Store → Store
unfolding free inner_of
nyxstone_destroy none s = s
nyxstone_destroy (some h) s = free (some h) (free (inner_of (s.live h)) s)

module _ (fails : ℕ → Bool) (err : Bool) where
  unfoldable pub without_handle : Bytes → Store → Created
  unfolding set_err
  without_handle text s =
      let (m, s') = set_err fails err text s in record { result = none; message = m; store = s' }

  -- Behind `new (std::nothrow) nyxstone_handle`; without a handle the object is freed at the end.
  abbrev pub handle_given : ℕ → Option ℕ × Store → Created
  handle_given inner (none, s) =
      let c = without_handle (codes "out of memory") s in
      record c { store = free (some inner) c.store }
  handle_given inner (some h, s) = record { result = some h; message = none; store = s }

  -- Behind `create`, which has allocated the object if it returned one.
  abbrev pub create_result : Expected (Unit {0}) → Store → Created
  create_result (error m) s = without_handle m s
  create_result (value _) s =
      handle_given s.calls (malloc fails (handle_block s.calls) (added class_object s))

  -- Behind `nyxstone_glue_init_once`, which returned `rc`, with the exception of `create`, if any.
  unfoldable pub created : Option (Option Bytes) → ℕ → Store → Created
  unfolding without_handle create malloc free c_str
  created (some w) rc s = without_handle (what w) s
  created none rc s = create_result (create rc) s

  unfoldable pub nyxstone_create :
      (start : Startup)
      → Option (Option Bytes)
      → SetupState start.World
      → Store
      → Created × SetupState start.World
  unfolding init_once created
  nyxstone_create start exception x s =
      let (rc, x') = init_once start x in (created exception rc s, x')
