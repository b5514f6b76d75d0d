-- ===== src/Prefix.antt =====
-- src/vllm_router/prefix: the trie behind the prefix-aware routing.
pub mod HashTrie
