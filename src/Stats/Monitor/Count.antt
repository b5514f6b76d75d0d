-- ===== src/Stats/Monitor/Count.antt =====
-- The number of active requests of one stage on one engine, as the table of requests changes.
use production_stack.Base.Names.{
  ℕ, ◌+◌, ◌≤◌, String, ◌≡◌, refl, Bool, false, ◌&&◌, not, some, [], ◌∷◌, arith,
}
use production_stack.Base.Tests.{if◌then◌else◌}
use production_stack.Base.Eq.{◌==◌, nat_eq, string_eq}
use production_stack.Base.Lists.{Distinct}
use production_stack.Base.Dict
use production_stack.Base.Dict.{Dict, contains-keys}
use production_stack.Stats.Monitor.{ActiveRequest, Stage, prefill, decoding, is_prefill}

abbrev pub same_stage : Stage → Stage → Bool
same_stage prefill s = is_prefill s
same_stage decoding s = not (is_prefill s)

-- 1 if the request is in the stage and on the engine
abbrev pub one : Stage → String → ActiveRequest → ℕ
one s u r = if same_stage s r.stage && r.engine_url == u then 1 else 0

unfoldable pub count : Stage → String → Dict ℕ ActiveRequest → ℕ
count s u [] = 0
count s u ((h, r) ∷ d) = one s u r + count s u d

pub count-put_new :
    (s : Stage) (u : String) (d : Dict ℕ ActiveRequest) (h : ℕ) (r : ActiveRequest)
    → Dict.has d h ≡ false
    → count s u (Dict.put d h r) ≡ count s u d + one s u r
unfolding count Dict.put Dict.has
count-put_new s u [] h r n = omega arith
count-put_new s u ((j, q) ∷ d) h r n = ground (arith, count-put_new s u d h r)

pub count-put_old :
    (s : Stage) (u : String) (d : Dict ℕ ActiveRequest) (h : ℕ) (q r : ActiveRequest)
    → Dict.get d h ≡ some q
    → count s u (Dict.put d h r) + one s u q ≡ count s u d + one s u r
unfolding count Dict.put Dict.get
count-put_old s u [] h q r e = ground arith
count-put_old s u ((j, p) ∷ d) h q r e = ground (arith, count-put_old s u d h q r)

pub del-missing : (d : Dict ℕ ActiveRequest) (h : ℕ) → Dict.has d h ≡ false → Dict.del d h ≡ d
unfolding Dict.del Dict.has
del-missing [] h n = refl
del-missing ((j, p) ∷ d) h n = ground (arith, del-missing d h)

pub count-del :
    (s : Stage) (u : String) (d : Dict ℕ ActiveRequest) (h : ℕ) (q : ActiveRequest)
    → Distinct (Dict.keys d)
    → Dict.get d h ≡ some q
    → count s u (Dict.del d h) + one s u q ≡ count s u d
unfolding count Dict.del Dict.get
count-del s u [] h q n e = ground arith
count-del s u ((j, p) ∷ d) h q n e =
    ground (arith, count-del s u d h q n.1, del-missing d h, contains-keys d j, nat_eq.beq_iff j h)

-- A request that is there is counted.
pub one-le-count :
    (s : Stage) (u : String) (d : Dict ℕ ActiveRequest) (h : ℕ) (q : ActiveRequest)
    → Dict.get d h ≡ some q
    → one s u q ≤ count s u d
unfolding count Dict.get
one-le-count s u [] h q e = ground arith
one-le-count s u ((j, p) ∷ d) h q e = ground (arith, one-le-count s u d h q)
