-- ===== src/Tests/Handle.antt =====
-- The life of a handle at concrete inputs.
use nyxstone_tricore_gcc.Base.{ℕ, suc, ◌≡◌, refl, Bool, true, false, none, some, ◌==◌, codes}
use nyxstone_tricore_gcc.GlueLayer.Startup.{Startup, SetupState, init_once}
use nyxstone_tricore_gcc.CAbi.Store.{Store}
use nyxstone_tricore_gcc.CAbi.Handle.{nyxstone_create}
use nyxstone_tricore_gcc.CAbi.Handle.Lifetime.{
  IsBalanced, IsGiven, nyxstone_create-IsBalanced, nyxstone_create-IsGiven,
}

-- The state counts the calls; every one succeeds.
abbrev small_start : Startup
small_start = record {
  World = ℕ;
  abs_section_name = codes "abs";
  und_section_name = codes "und";
  bfd_init = λ w. (true, suc w);
  obstack_begin = λ w. suc w;
  symbol_begin = λ w. suc w;
  frag_init = λ w. suc w;
  subsegs_begin = λ w. suc w;
  read_begin = λ w. suc w;
  expr_begin = λ w. suc w;
  bfd_find_target = λ name w. (true, suc w);
  bfd_create = λ name w. (true, suc w);
  bfd_make_writable = λ w. suc w;
  bfd_set_format = λ w. suc w;
  bfd_set_arch_mach = λ w. suc w;
  subseg_new = λ name w. suc w;
  subseg_set = λ w. suc w;
  md_parse_option = λ c text w. suc w;
  md_begin = λ w. suc w;
}

abbrev fresh : SetupState ℕ
fresh = record { initialized = false; world = 0 }

abbrev no_blocks : Store
no_blocks = record { live = λ q. none; calls = 0 }

-- The second allocation fails.
abbrev second_fails : ℕ → Bool
second_fails n = n == 1

out_of_memory :
    (nyxstone_create second_fails true small_start none fresh no_blocks).0.message ≡ some 2
unfolding nyxstone_create
out_of_memory = refl

nyxstone_create-IsBalanced_example :
    IsBalanced no_blocks (nyxstone_create second_fails true small_start none fresh no_blocks).0
nyxstone_create-IsBalanced_example =
    nyxstone_create-IsBalanced second_fails true small_start none fresh no_blocks (λ q h. refl)

nyxstone_create-IsGiven_example :
    IsGiven (nyxstone_create (λ n. false) true small_start none fresh no_blocks).0
unfolding init_once
nyxstone_create-IsGiven_example =
    (nyxstone_create-IsGiven (λ n. false) true small_start none fresh no_blocks).0
      (refl, refl, refl)
