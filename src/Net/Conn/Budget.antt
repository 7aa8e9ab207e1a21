-- ===== src/Net/Conn/Budget.antt =====
-- The byte budget of src/net/conn.rs over every interleaving of the owner and the write task.
use ghostpp_rs.Prelude.{
  ℕ, ◌+◌, ◌≤◌, ◌≡◌, ◌↔◌, refl, ◌⊎◌, inl, inr, true, false, List, [], ◌∷◌, ◌++◌, arith, length,
  if◌then◌else◌,
}
use ghostpp_rs.Net.Conn.{
  Link, opened, try_send, close, total_bytes, Step, takes, wrote, write_fails, sends, closes, Reach,
  here, next, write_queue_max_bytes,
}

-- While the write task runs, the counter is what was handed over and is not written yet; and it never
-- passes the budget.
pub record Accounted (l : Link) : Type 0 where
  pub within : l.queued ≤ write_queue_max_bytes
  pub charged : (l.receiving ≡ false) ⊎ (l.queued ≡ total_bytes l.channel + total_bytes l.writing)

total_bytes-append :
    (ps : List (List ℕ)) (p : List ℕ) → total_bytes (ps ++ p ∷ []) ≡ total_bytes ps + length p
total_bytes-append [] p = omega arith
total_bytes-append (q ∷ ps) p = omega (arith, total_bytes-append ps p)

try_send-Accounted : (packet : List ℕ) (l : Link) → Accounted l → Accounted (try_send packet l).0
unfolding try_send
try_send-Accounted packet l a =
    ground (arith, a.within, a.charged, total_bytes-append l.channel packet)

Step-Accounted : {l m : Link} → Step l m → Accounted l → Accounted m
Step-Accounted (takes l p ps r w c) a = record {
  within = a.within;
  charged = ground (arith, a.charged);
}
Step-Accounted (wrote l p r w) a = record {
  within = ground (arith, a.within);
  charged = ground (arith, a.charged);
}
Step-Accounted (write_fails l p r w) a = record {
  within = ground (arith, a.within);
  charged = inl refl;
}
Step-Accounted (sends l packet) a = try_send-Accounted packet l a
Step-Accounted (closes l) a = record {
  within = unfold close in a.within;
  charged = inl (unfold close in refl);
}

-- On every connection, after any interleaving of sends, writes, failures and close, the counter stays
-- within the budget and, while the write task runs, is exactly what is queued or being written.
pub Reach-Accounted : (id : ℕ) {l : Link} → Reach (opened id) l → Accounted l
Reach-Accounted id here = unfold opened in record { within = omega arith; charged = inr refl }
Reach-Accounted id (next r s) = Step-Accounted s (Reach-Accounted id r)

-- A send succeeds exactly when the write task takes packets and the packet fits the budget; then it
-- stands last in the channel and is charged, and otherwise nothing changes.
try_send_cases :
    (packet : List ℕ) (l : Link)
    → (((try_send packet l).1 ≡ true)
        ↔ ((l.receiving ≡ true) × (l.queued + length packet ≤ write_queue_max_bytes)))
      × ((try_send packet l).0 ≡ (
          if (try_send packet l).1
          then record l { queued = l.queued + length packet; channel = l.channel ++ packet ∷ [] }
          else l))
unfolding try_send
try_send_cases packet l = ground arith
