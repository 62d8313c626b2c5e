-- ===== src/Common/Calls.antt =====
-- The environment of a component: the kernel, a device, a client's callback. What it answers to a
-- call is a function of the call and of all calls before it, newest first; the component is run
-- with such a function and returns the longer record of calls beside its result.
use mathlib.Core.List.{List, ◌∷◌}

abbrev pub Host : Type 0 → Type 0 → Type 0
Host C R = List C → C → R

abbrev pub call : {C R : Type 0} → Host C R → C → List C → R × List C
call h c w = (h w c, c ∷ w)
