-- ===== src/Collectors/Registry/Switch.antt =====
-- Enabling and disabling collectors.
use quant_stack.Prelude.{
  ◌≡◌, refl, String, Bool, true, false, not, ◌&&◌, some, List, [], ◌∷◌, arith, str_eq, eq_iff,
  is_none, if◌then◌else◌, Option-cases, inl, inr,
}
use quant_stack.Prelude.Dict.{Dict, lookup, lookup-insert}
use quant_stack.Collectors.Registry.Visit.{IsKeyed}
use quant_stack.Collectors.Registry.{
  Collector, Registry, Status, idle, disabled, mem, mark, discard, enable, disable, runs, register,
}

mem-discard : (n k : String) (l : List String) → mem k (discard n l) ≡ (mem k l && not (str_eq n k))
unfolding discard
mem-discard n k [] = refl
mem-discard n k (j ∷ l) = ground (arith, mem-discard n k l, eq_iff j n, eq_iff j k, eq_iff n k)

lookup-mark :
    (n k : String) (on : Bool) (st : Status) (cs : Dict Collector)
    → is_none (lookup k (mark n on st cs)) ≡ is_none (lookup k cs)
unfolding mark
lookup-mark n k on st cs = elim (Option-cases (lookup n cs)) [
  | inl e ↦ rw (e, mark)
  | inr (c, e) ↦
      ground (arith, eq_iff n k, lookup-insert n k (record c { enabled = on; status = st }) cs)
]

-- After `disable` the collector is not run and every other one runs as before; after `enable` it
-- runs exactly if it is registered, and every other one as before.
pub switch_runs :
    (n k : String) (r : Registry)
    → (runs k (disable n r).0 ≡ (if str_eq n k then false else runs k r))
      × (runs k (enable n r)
          ≡ (if str_eq n k then not (is_none (lookup k r.collectors)) else runs k r))
unfolding runs disable enable
switch_runs n k r = (
  ground (arith, lookup-mark n k false disabled r.collectors, eq_iff n k),
  ground (arith, lookup-mark n k true idle r.collectors, mem-discard n k r.disabled_names),
)

-- Registering a collector under a name that is taken changes nothing; under a free name it adds the
-- collector, under its own name.
pub register_lem :
    (c : Collector) (r : Registry) (k : String)
    → lookup k (register c r).collectors ≡ (
        if str_eq c.name k && is_none (lookup k r.collectors)
        then some c
        else lookup k r.collectors)
unfolding register
register_lem c r k = ground (arith, lookup-insert c.name k c r.collectors, eq_iff c.name k)

-- Registration files every collector under its own name.
pub register-IsKeyed :
    (c : Collector) (r : Registry) → IsKeyed r.collectors → IsKeyed (register c r).collectors
register-IsKeyed c r h k c' e = ground (arith, register_lem c r k, h k c', eq_iff c.name k)
