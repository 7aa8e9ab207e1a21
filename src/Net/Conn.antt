-- ===== src/Net/Conn.antt =====
-- src/net/conn.rs: the write side of a player connection. A ConnHandle and its clones share one queue
-- and one counter; the write task takes packets off the queue. Its steps interleave with the owner's
-- calls in any order.
pub mod Budget
use ghostpp_rs.Prelude.{
  ℕ, ◌+◌, ◌-◌, ◌*◌, ◌≡◌, Bool, true, false, List, [], ◌∷◌, ◌++◌, ltb, if◌then◌else◌, length,
}

abbrev pub write_queue_max_bytes : ℕ
write_queue_max_bytes = 8 * 1024 * 1024

-- What the clones of a ConnHandle share: whether the write task still takes packets, the counter, the
-- packets in the channel, and the packet that the write task is writing.
pub record Link : Type 0 where
  pub id : ℕ
  pub receiving : Bool
  pub queued : ℕ
  pub channel : List (List ℕ)
  pub writing : List (List ℕ)

unfoldable pub opened : ℕ → Link
opened id = record { id = id; receiving = true; queued = 0; channel = []; writing = [] }

-- ConnHandle::try_send. The counter cannot reach the end of usize, so `saturating_add` is `+`.
unfoldable pub try_send : List ℕ → Link → Link × Bool
try_send packet l =
    if ltb write_queue_max_bytes (l.queued + length packet)
    then (l, false)
    else if l.receiving
    then (record l { queued = l.queued + length packet; channel = l.channel ++ packet ∷ [] }, true)
    else (l, false)

-- ConnHandle::queued_bytes
unfoldable pub queued_bytes : Link → ℕ
queued_bytes l = l.queued

abbrev pub total_bytes : List (List ℕ) → ℕ
total_bytes [] = 0
total_bytes (p ∷ ps) = length p + total_bytes ps

-- ConnHandle::close stops the write task where it stands: what is queued stays charged.
unfoldable pub close : Link → Link
close l = record l { receiving = false; channel = []; writing = [] }

-- The steps of the write task: `recv`, the end of a write, and a failed write, after which the task
-- closes the channel and gives the budget back. The steps of the owner: `try_send` and `close`.
pub data Step : Link → Link → Type 0 where
  takes :
      (l : Link) (p : List ℕ) (ps : List (List ℕ))
      → l.receiving ≡ true
      → l.writing ≡ []
      → l.channel ≡ p ∷ ps
      → Step l (record l { channel = ps; writing = p ∷ [] })
  wrote :
      (l : Link) (p : List ℕ)
      → l.receiving ≡ true
      → l.writing ≡ p ∷ []
      → Step l (record l { queued = l.queued - length p; writing = [] })
  write_fails :
      (l : Link) (p : List ℕ)
      → l.receiving ≡ true
      → l.writing ≡ p ∷ []
      → Step l (record l {
        receiving = false;
        queued = l.queued - length p - total_bytes l.channel;
        channel = [];
        writing = [];
      })
  sends : (l : Link) (packet : List ℕ) → Step l (try_send packet l).0
  closes : (l : Link) → Step l (close l)

pub data Reach (l : Link) : Link → Type 0 where
  here : Reach l l
  next : {m n : Link} → Reach l m → Step m n → Reach l n
