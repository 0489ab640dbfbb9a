-- ===== src/Http2/Writer.antt =====
-- An HTTP/2 session as the writer of its connector, by what nghttp2 promises of its output.
use doormat.Base.{◌≡◌, refl, Option, ◌++◌, Bytes, if_both}
use doormat.Connector.Writing.{IsWriter, written_by}
use doormat.Http2.Session.{Session, Nghttp2, http2, on_write}

-- nghttp2 holds bytes to send, and `nghttp2_session_mem_send` hands over the next of them.
pub record SendsInOrder {N : Type 0} (ng : Nghttp2 N) : Type 0 where
  pub unsent : N → Bytes
  pub next_bytes :
      (n : N) → (Nghttp2.mem_send ng n).1 ++ unsent (Nghttp2.mem_send ng n).0 ≡ unsent n

module _ {N : Type 0} (ng : Nghttp2 N) (c : SendsInOrder ng) where
  pub on_write-unsent :
      (s : Session N)
      → written_by (on_write ng s).1 ++ SendsInOrder.unsent c (on_write ng s).0.session_data
        ≡ SendsInOrder.unsent c s.session_data
  unfolding on_write
  on_write-unsent s =
      if_both
        (λ (p : Session N × Option Bytes).
          written_by p.1 ++ SendsInOrder.unsent c p.0.session_data
          ≡ SendsInOrder.unsent c s.session_data)
        s.connected (SendsInOrder.next_bytes c s.session_data) refl

  pub on_write-pending : (s : Session N) → (on_write ng s).0.pending ≡ s.pending
  unfolding on_write
  on_write-pending s =
      if_both (λ (p : Session N × Option Bytes). p.0.pending ≡ s.pending) s.connected refl refl

  -- What the theorems on a connector need of its handler.
  abbrev pub http2-IsWriter : IsWriter (http2 ng)
  http2-IsWriter = record {
    unsent = λ s. SendsInOrder.unsent c s.session_data;
    pending = λ s. s.pending;
    feedbacks_taken = λ s. refl;
    none_pending = λ s. refl;
    feedbacks_unsent = λ s. refl;
    write_unsent = on_write-unsent;
    write_pending = on_write-pending;
  }
