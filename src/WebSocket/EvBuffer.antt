-- ===== src/WebSocket/EvBuffer.antt =====
-- What src/httpd_websocket.c uses of libevent's evbuffer.
use luafan.Common.{ℕ, ◌≡◌, Option, some, List, [], ◌++◌, length, take, drop}

-- A call that changes a buffer returns the buffer after it.
pub record EvBuffer : Type 1 where
  pub Buffer : Type 0
  pub make : Option Buffer
  pub get_length : Buffer → ℕ
  pub copyout : Buffer → ℕ → List ℕ
  pub drain : Buffer → ℕ → Buffer
  pub remove : Buffer → ℕ → List ℕ × Buffer
  pub add : Buffer → List ℕ → Buffer
  pub add_buffer : Buffer → Buffer → Buffer

-- libevent's documentation of these calls: a buffer is a queue of bytes.
pub record EvBufferLaws (E : EvBuffer) : Type 0 where
  pub contents : E.Buffer → List ℕ
  pub make_lem : (b : E.Buffer) → E.make ≡ some b → contents b ≡ []
  pub get_length_lem : (b : E.Buffer) → E.get_length b ≡ length (contents b)
  pub copyout_lem : (b : E.Buffer) (n : ℕ) → E.copyout b n ≡ take n (contents b)
  pub drain_lem : (b : E.Buffer) (n : ℕ) → contents (E.drain b n) ≡ drop n (contents b)
  pub removed_lem : (b : E.Buffer) (n : ℕ) → (E.remove b n).0 ≡ take n (contents b)
  pub remove_lem : (b : E.Buffer) (n : ℕ) → contents (E.remove b n).1 ≡ drop n (contents b)
  pub add_lem : (b : E.Buffer) (bs : List ℕ) → contents (E.add b bs) ≡ contents b ++ bs
  pub add_buffer_lem : (b c : E.Buffer) → contents (E.add_buffer b c) ≡ contents b ++ contents c
