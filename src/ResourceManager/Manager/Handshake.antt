-- ===== src/ResourceManager/Manager/Handshake.antt =====
-- What an executor manager sends with its connection request, against what the resource manager
-- decides: server/executor_manager/manager.cpp, `start`, and server/resource_manager/manager.cpp.
use r_faa_s.Common.{
  ℕ, ◌%◌, ◌^◌, ◌≤◌, ◌≡◌, ◌≢◌, refl, some, arith, ◌==◌, ◌>>=◌, not, if◌then◌else◌, ◌&&◌,
}
use r_faa_s.Rdmalib.PrivateData.Laws.{sent_word, sent_word_lem, key-word_of, secret-word_of}
use r_faa_s.ResourceManager.Manager.{reject, accept_executor, accept_client, admit}

-- The decision on what a sender with a secret and a key wrote.
admit-sent_word :
    (mine theirs k : ℕ)
    → (sent_word theirs k >>= admit mine)
      ≡ some (
          if k % 2 ^ 8 == 1 && not (theirs % 2 ^ 16 == mine)
          then reject
          else (if k % 2 ^ 8 == 1 then accept_executor else accept_client))
unfolding admit
admit-sent_word mine theirs k =
    let e = key-word_of (k % 2 ^ 8) 0 (theirs % 2 ^ 16) (omega arith) (omega arith) (omega arith) in
    let e' = secret-word_of (k % 2 ^ 8) 0 (theirs % 2 ^ 16) (omega arith) in
    rw (sent_word_lem theirs k, e, e') refl

-- An executor manager sends its secret under the key 1. A resource manager whose secret fits into 16
-- bits accepts it exactly if the lower 16 bits of what it sent are that secret, and rejects it
-- otherwise; a client, whose key is another one, is always accepted.
pub admission_by_secret :
    (mine theirs k : ℕ)
    → ((theirs % 2 ^ 16 ≡ mine → (sent_word theirs 1 >>= admit mine) ≡ some accept_executor)
        × (theirs % 2 ^ 16 ≢ mine → (sent_word theirs 1 >>= admit mine) ≡ some reject))
      × (k % 2 ^ 8 ≢ 1 → (sent_word theirs k >>= admit mine) ≡ some accept_client)
admission_by_secret mine theirs k =
    ground (arith, admit-sent_word mine theirs 1, admit-sent_word mine theirs k)

-- A secret that does not fit into 16 bits is never met: no executor is accepted, whatever it sends.
pub wide_secret_never_accepts :
    (mine theirs k : ℕ) → 2 ^ 16 ≤ mine → (sent_word theirs k >>= admit mine) ≢ some accept_executor
wide_secret_never_accepts mine theirs k wide = ground (arith, admit-sent_word mine theirs k)
