-- ===== src/Runtime/Conversation/Request.antt =====
-- `Conversation::request` of crates/core/src/runtime/conversation.rs: the tools, the system blocks and
-- the messages of the next request, with the cache breakpoints. The settings are copied as they are
-- and left out.
use apprentice_harness.Common.{ℕ, ◌+◌, Bool, true, false, List, [], ◌∷◌, map, if◌then◌else◌}
use apprentice_harness.Mentor.Types.{
  user, role_eq, ContentBlock, text, tool_use, tool_result, cached, Message, SystemBlock, ToolDef,
}

-- The fields of `MentorRequest` that the prompt cache depends on.
pub record MentorRequest (Value : Type 0) : Type 0 where
  pub blocks : List SystemBlock
  pub messages : List (Message Value)
  pub tools : List (ToolDef Value)

abbrev cached_system : SystemBlock → SystemBlock
cached_system s = record s { cache = true }

abbrev flag : Bool → ℕ
flag true = 1
flag false = 0

module _ {Value : Type 0} where
  abbrev pub uncached : ContentBlock Value → ContentBlock Value
  uncached (text t c) = text t false
  uncached (tool_use id name input c) = tool_use id name input false
  uncached (tool_result id content is_error c) = tool_result id content is_error false
  uncached b = b

  abbrev pub uncached_message : Message Value → Message Value
  uncached_message m = record { role = m.role; content = map uncached m.content }

  -- The last block is popped, marked and pushed again.
  unfoldable pub cache_last_block : List (ContentBlock Value) → List (ContentBlock Value)
  cache_last_block [] = []
  cache_last_block (b ∷ []) = cached b ∷ []
  cache_last_block (b ∷ c ∷ bs) = b ∷ cache_last_block (c ∷ bs)

  unfoldable pub cache_last_message : List (Message Value) → List (Message Value)
  unfolding cache_last_block
  cache_last_message [] = []
  cache_last_message (m ∷ []) =
      (if role_eq m.role user then record m { content = cache_last_block m.content } else m) ∷ []
  cache_last_message (m ∷ n ∷ ms) = m ∷ cache_last_message (n ∷ ms)

  unfoldable pub cache_last_tool : List (ToolDef Value) → List (ToolDef Value)
  cache_last_tool [] = []
  cache_last_tool (t ∷ []) = record t { cache = true } ∷ []
  cache_last_tool (t ∷ u ∷ ts) = record t { cache = false } ∷ cache_last_tool (u ∷ ts)

  unfoldable pub request :
      List SystemBlock → List (ToolDef Value) → List (Message Value) → MentorRequest Value
  unfolding cache_last_message cache_last_tool
  request system_blocks tool_set ms = record {
    blocks = map cached_system system_blocks;
    messages = cache_last_message (map uncached_message ms);
    tools = cache_last_tool tool_set;
  }

  -- The breakpoints that stand in a list of blocks, of messages, of tools.
  abbrev pub block_flag : ContentBlock Value → ℕ
  block_flag (text t c) = flag c
  block_flag (tool_use id name input c) = flag c
  block_flag (tool_result id content is_error c) = flag c
  block_flag _ = 0

  abbrev pub block_flags : List (ContentBlock Value) → ℕ
  block_flags [] = 0
  block_flags (b ∷ bs) = block_flag b + block_flags bs

  abbrev pub message_flags : List (Message Value) → ℕ
  message_flags [] = 0
  message_flags (m ∷ ms) = block_flags m.content + message_flags ms

  abbrev pub tool_flags : List (ToolDef Value) → ℕ
  tool_flags [] = 0
  tool_flags (t ∷ ts) = flag t.cache + tool_flags ts

  abbrev pub plain_tool : ToolDef Value → ToolDef Value
  plain_tool t = record t { cache = false }
