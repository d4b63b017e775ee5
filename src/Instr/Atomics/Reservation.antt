-- ===== src/Instr/Atomics/Reservation.antt =====
-- Load-reserved and store-conditional, and the atomic operations on RAM.
use rv64i_simulator.Base.{
  ℕ, ◌-◌, ◌<◌, ◌≡◌, ◌≢◌, u8, update, Bool-cases, inl, inr, refl, ◌∙◌, true, false, ◌&&◌, ◌==◌,
  if◌then◌else◌, u32, sx32, arith,
}
use rv64i_simulator.Memory
use rv64i_simulator.Memory.RoundTrip.{read-write_back}
use rv64i_simulator.Bus.Ram.{InRam, Unprotected, reads, writes, sizes}
use rv64i_simulator.Machine.{Machine, write_reg, write_reg-written}
use rv64i_simulator.Decode.{DecodedInstruction}
use rv64i_simulator.Bus.Read.{read_word}
use rv64i_simulator.Instr.Atomics.{exec_lr_w, exec_sc_w}

write_reg_lem :
    (rd value : ℕ) (m : Machine)
    → write_reg rd value m ≡ record m {
      registers = if u8 rd == 0 then m.registers else update m.registers (u8 rd) value;
    }
unfolding write_reg
write_reg_lem rd value m = elim (Bool-cases (u8 rd == 0)) [ inl e ↦ rw e refl | inr e ↦ rw e refl ]

-- Without a reservation `sc.w` fails.
retry :
    (sc : DecodedInstruction) (m : Machine)
    → 0 < sc.rd
    → sc.rd < 32
    → m.reservation_valid ≡ false
    → (exec_sc_w sc m).registers sc.rd ≡ 1
unfolding exec_sc_w
retry sc m h k v = rw v (write_reg-written sc.rd 1 (record m { reservation_valid = false }) h k)

module _ (m : Machine) (a : ℕ) (r : InRam m a) (p : Unprotected m) where
  -- What `lr.w` leaves on RAM.
  lr_state :
      (lr : DecodedInstruction)
      → m.registers lr.rs1 ≡ a
      → exec_lr_w lr m
        ≡ write_reg lr.rd
            (sx32 (Memory.read_word m.ram (a - m.ram_base)))
            (record m { load_reservation = a; reservation_valid = true })
  unfolding exec_lr_w
  lr_state lr e = rw (e, (reads m a r p).1) refl

  -- And `sc.w` where the reservation is that of its address.
  sc_state :
      (sc : DecodedInstruction)
      → m.registers sc.rs1 ≡ a
      → m.reservation_valid ≡ true
      → m.load_reservation ≡ a
      → exec_sc_w sc m
        ≡ record (write_reg sc.rd 0 (record m {
          ram = Memory.write_word m.ram (a - m.ram_base) (u32 (m.registers sc.rs2));
        })) { reservation_valid = false }
  unfolding exec_sc_w
  sc_state sc e v l =
      let test : (m.reservation_valid && m.load_reservation == m.registers sc.rs1) ≡ true =
        ground arith in
      rw (test, e, (writes m a r p (u32 (m.registers sc.rs2))).1) refl

  stored :
      (sc : DecodedInstruction)
      → m.registers sc.rs1 ≡ a
      → m.reservation_valid ≡ true
      → m.load_reservation ≡ a
      → 0 < sc.rd
      → sc.rd < 32
      → let s = exec_sc_w sc m in
        (s.registers sc.rd ≡ 0)
        × ((read_word a s).0 ≡ u32 (m.registers sc.rs2))
        × (s.reservation_valid ≡ false)
  stored sc e v l pos small =
      let n = Memory.write_word m.ram (a - m.ram_base) (u32 (m.registers sc.rs2)) in
      let w = record m { ram = n } in
      let regs = if u8 sc.rd == 0 then m.registers else update m.registers (u8 sc.rd) 0 in
      let f = record m { ram = n; registers = regs; reservation_valid = false } in
      let size : n.size ≡ m.ram.size = (sizes m.ram (a - m.ram_base) _).1 in
      let rf : InRam f a = record {
        fits = rw size r.fits;
        above = r.above;
        from = r.from;
        inside = rw size r.inside;
      } in
      let pf : Unprotected f = record { mode = p.mode; unlocked = p.unlocked } in
      let b = r.from in
      let i = r.inside in
      let t = r.fits in
      let word = u32 (m.registers sc.rs2) in
      let twice : u32 word ≡ word = omega arith in
      let offset = a - m.ram_base in
      let all = read-write_back m.ram offset word (omega arith) (omega arith) (omega arith) in
      let back : Memory.read_word n offset ≡ word = rw twice at all.2 in
      let whole : exec_sc_w sc m ≡ f = sc_state sc e v l ∙ rw (write_reg_lem sc.rd 0 w) refl in
      rw whole (ground arith, rw ((reads f a rf pf).1) back, refl)

-- In machine mode without a locked PMP entry, at an address with eight bytes of RAM left from it
-- on, in a RAM that is above the CLINT and ends below 2^64, with destinations below 32, those of
-- both stores other than x0, and sc.w at lr.w's address with its sources not overwritten by lr.w,
-- lr.w and then sc.w succeeds: it gives 0 and stores the low word of its source, and the next
-- sc.w, whatever its address, gives 1.
pub exec_sc_w-exec_lr_w :
    (lr sc next : DecodedInstruction) (m : Machine)
    → InRam m (m.registers lr.rs1)
    → Unprotected m
    → lr.rd < 32
    → 0 < sc.rd
    → sc.rd < 32
    → 0 < next.rd
    → next.rd < 32
    → lr.rd ≢ sc.rs1
    → lr.rd ≢ sc.rs2
    → m.registers sc.rs1 ≡ m.registers lr.rs1
    → let s = exec_sc_w sc (exec_lr_w lr m) in
      (s.registers sc.rd ≡ 0)
      × ((read_word (m.registers lr.rs1) s).0 ≡ u32 (m.registers sc.rs2))
      × ((exec_sc_w next s).registers next.rd ≡ 1)
exec_sc_w-exec_lr_w lr sc next m r p a b c d e n k same =
    let addr = m.registers lr.rs1 in
    let val = sx32 (Memory.read_word m.ram (addr - m.ram_base)) in
    let regs = if u8 lr.rd == 0 then m.registers else update m.registers (u8 lr.rd) val in
    let s = record m { load_reservation = addr; reservation_valid = true; registers = regs } in
    let first : exec_lr_w lr m ≡ s =
      lr_state m addr r p lr refl
      ∙ write_reg_lem lr.rd val (record m { load_reservation = addr; reservation_valid = true }) in
    let r1 : InRam s addr = record {
      fits = r.fits;
      above = r.above;
      from = r.from;
      inside = r.inside;
    } in
    let p1 : Unprotected s = record { mode = p.mode; unlocked = p.unlocked } in
    let kept : regs sc.rs1 ≡ addr = ground arith in
    let source : regs sc.rs2 ≡ m.registers sc.rs2 = ground arith in
    let second = sc_state s addr r1 p1 sc kept refl refl in
    let done = stored s addr r1 p1 sc kept refl refl b c in
    rw first (rw (← source) (done.0, done.1, retry next (exec_sc_w sc s) d e done.2))
