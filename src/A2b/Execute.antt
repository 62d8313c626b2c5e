-- ===== src/A2b/Execute.antt =====
-- audio/a2b/Profile.cpp: select, execute, verifyNodes. `error` is the number of the first operation
-- that failed; the text of the message is left out.
use android_device_brcm_rpi.Common.{
  ℕ, zero, suc, ◌+◌, ◌-◌, min, bit_and, bit_or, Bool, true, false, not, ◌&&◌, ◌==◌, Option, none,
  some, List, [], ◌∷◌, if◌then◌else◌, Host, call,
}
use android_device_brcm_rpi.A2b.Profile.{
  Target, main, node, peripheral, Register, Operation, delay_op, write_op, update_op, verify_op,
  poll_op, Phase, init, mute, unmute, shutdown, health, NodeIdentity, Profile, Call, bus_write,
  bus_read, bus_delay, now_ms, Answer, succeeds, value_of,
}

-- A call of the bus as `bool`.
abbrev pub write : Host Call Answer → ℕ → ℕ → ℕ → List Call → Bool × List Call
write h address reg value w = let (a, w) = call h (bus_write address reg value) w in (succeeds a, w)

-- `~mask` on a byte of a register: the mask is at most 255.
abbrev pub without : ℕ → ℕ → ℕ
without value mask = bit_and value (255 - mask)

-- The three writes that route to a peripheral; the later ones only after the earlier.
unfoldable pub select_peripheral : Host Call Answer → ℕ → ℕ → ℕ → List Call → Bool × List Call
select_peripheral h main_address n address w =
    let (first, w) = write h main_address 1 n w in
    if not first
    then (false, w)
    else (let (second, w) = write h (main_address + 1) 0 address w in
        if not second then (false, w) else write h main_address 1 (bit_or 0x20 n) w)

-- `select`, and the address that it leaves.
unfoldable pub select : Host Call Answer → ℕ → Target → List Call → Bool × List Call
unfolding select_peripheral
select h main_address main w = (true, w)
select h main_address (node i) w = write h main_address 1 i w
select h main_address (peripheral n address) w = select_peripheral h main_address n address w

abbrev pub address_of : ℕ → Target → ℕ
address_of main_address main = main_address
address_of main_address (node i) = main_address + 1
address_of main_address (peripheral n address) = main_address + 1

unfoldable pub update : Host Call Answer → ℕ → Register → List Call → Bool × List Call
update h address r w =
    let (a, w) = call h (bus_read address r.reg) w in
    if not (succeeds a)
    then (false, w)
    else write h address r.reg (bit_or (without (value_of a) r.mask) r.value) w

-- A read that shows the value wanted under the mask.
abbrev pub shows : Register → Answer → Bool
shows r a = bit_and (value_of a) r.mask == r.value

-- The first read of the do-while loop of a verify: its clock reading is the only one it makes.
unfoldable pub verify : Host Call Answer → ℕ → Register → List Call → Bool × List Call
verify h address r w =
    let (_, w) = call h now_ms w in
    let (a, w) = call h (bus_read address r.reg) w in
    if not (succeeds a)
    then (false, w)
    else if shows r a
    then (true, w)
    else (let (_, w) = call h now_ms w in (false, w))

-- The do-while loop of a poll with its deadline; `none` when the fuel is used up.
unfoldable pub poll_loop :
    Host Call Answer → ℕ → ℕ → Register → ℕ → List Call → Option (Bool × List Call)
poll_loop h zero address r deadline w = none
poll_loop h (suc fuel) address r deadline w =
    let (a, w1) = call h (bus_read address r.reg) w in
    let (t, w2) = call h now_ms w1 in
    let remaining = deadline - value_of t in
    let (_, w3) = call h (bus_delay (min 5 remaining)) w2 in
    let again = poll_loop h fuel address r deadline w3 in
    if not (succeeds a)
    then some (false, w1)
    else if shows r a
    then some (true, w1)
    else if remaining == 0
    then some (false, w2)
    else again

-- With a clock that goes on, `timeout_ms + 1` rounds are enough: `Polling`.
unfoldable pub poll : Host Call Answer → ℕ → Register → List Call → Option (Bool × List Call)
poll h address r w =
    let (t, w) = call h now_ms w in
    poll_loop h (suc r.timeout_ms) address r (value_of t + r.timeout_ms) w

-- Out of fuel counts as a failure.
abbrev pub or_failed : List Call → Option (Bool × List Call) → Bool × List Call
or_failed w none = (false, w)
or_failed w (some q) = q

-- The register operation after a `select`.
unfoldable pub access : Host Call Answer → ℕ → Operation → List Call → Bool × List Call
unfolding update verify poll
access h main_address (delay_op ms) w = let (_, w) = call h (bus_delay ms) w in (true, w)
access h main_address (write_op r) w = write h (address_of main_address r.target) r.reg r.value w
access h main_address (update_op r) w = update h (address_of main_address r.target) r w
access h main_address (verify_op r) w = verify h (address_of main_address r.target) r w
access h main_address (poll_op r) w = or_failed w (poll h (address_of main_address r.target) r w)

abbrev pub target_of : Operation → Target
target_of (delay_op ms) = main
target_of (write_op r) = r.target
target_of (update_op r) = r.target
target_of (verify_op r) = r.target
target_of (poll_op r) = r.target

abbrev pub is_main : Target → Bool
is_main main = true
is_main (node i) = false
is_main (peripheral n a) = false

-- NODEADR is cleared after an operation on anything but the main node, also after an error.
unfoldable pub restore : Host Call Answer → ℕ → Target → List Call → Bool × List Call
restore h main_address t w = if is_main t then (true, w) else write h main_address 1 0 w

-- One round of `execute`: whether the operation and the restoring succeeded.
unfoldable pub run_operation : Host Call Answer → ℕ → Operation → List Call → Bool × List Call
unfolding select access restore
run_operation h main_address o w =
    let (selected, w) = select h main_address (target_of o) w in
    let (accessed, w') = access h main_address o w in
    let w = if selected then w' else w in
    let (restored, w) = restore h main_address (target_of o) w in
    (selected && (accessed && restored), w)

-- Phases that go on after a failure.
abbrev pub goes_on : Phase → Bool
goes_on shutdown = true
goes_on mute = true
goes_on init = false
goes_on unmute = false
goes_on health = false

-- The rounds from operation `i` on; the error is that of the first failure.
unfoldable pub run_operations :
    Host Call Answer → ℕ → Bool → ℕ → List Operation → List Call → Option ℕ × List Call
run_operations h main_address on i [] w = (none, w)
run_operations h main_address on i (o ∷ os) w =
    let (ok, w') = run_operation h main_address o w in
    let (later, w'') = run_operations h main_address on (i + 1) os w' in
    if ok then (later, w'') else if on then (some i, w'') else (some i, w')

-- `execute`: no error is success.
unfoldable pub execute : Host Call Answer → Profile → Phase → List Call → Option ℕ × List Call
unfolding run_operations
execute h p phase w = run_operations h p.main_address (goes_on phase) 0 (p.sequences phase) w

-- One node: routed to, and the two registers of its identity compared.
unfoldable pub verify_node : Host Call Answer → ℕ → ℕ → NodeIdentity → List Call → Bool × List Call
verify_node h main_address i n w =
    let (routed, w) = write h main_address 1 i w in
    if not routed
    then (false, w)
    else (let (vendor, w) = call h (bus_read (main_address + 1) 2) w in
        if not (succeeds vendor)
        then (false, w)
        else (let (product, w) = call h (bus_read (main_address + 1) 3) w in
            (
              succeeds product && (value_of vendor == n.vendor && value_of product == n.product),
              w,
            )))

-- Stops at the first node that does not answer as it should.
unfoldable pub verify_from :
    Host Call Answer → ℕ → ℕ → List NodeIdentity → List Call → Bool × List Call
unfolding verify_node
verify_from h main_address i [] w = (true, w)
verify_from h main_address i (n ∷ ns) w =
    let (ok, w') = verify_node h main_address i n w in
    let rest = verify_from h main_address (i + 1) ns w' in if ok then rest else (false, w')

unfoldable pub verify_nodes : Host Call Answer → Profile → List Call → Bool × List Call
unfolding verify_from
verify_nodes h p w =
    let (ok, w) = verify_from h p.main_address 0 p.nodes w in
    let (restored, w) = write h p.main_address 1 0 w in (ok && restored, w)
