-- ===== src/Thinking/Tests.antt =====
-- Streams of handlers/thinking_transformer.rs on small inputs, and the theorems at such inputs.
use que_qiao_router.Base.{
  ℕ, zero, suc, Option, none, ◌≡◌, refl, some, List, [], ◌∷◌, ◌++◌, length, concat, lookup, insert,
  remove,
}
use que_qiao_router.Config.{reasoning, think_tag}
use que_qiao_router.Thinking.{
  Text, content, open_tag, close_tag, split_once, parse, Transformer, new_transformer,
  parse_content_source, text, Fields,
}
use que_qiao_router.Thinking.Chunks.{feed, feed-concat}
use que_qiao_router.Thinking.Pieces.{Pieces, parse-Pieces}
use que_qiao_router.Thinking.Fields.{to_reasoning}
use que_qiao_router.Thinking.Message.{
  Blocks, transform_message, source_reasoning, answer_of, content_parts, joined, without_blocks,
  classify_content, field_reasoning,
}
use que_qiao_router.Thinking.Convert.{transform_message-tag_field}

-- "a<th", "ink>b</", "think>c<": tags cut in two, and a last byte that may begin one.
abbrev first_piece : Text
first_piece = b'a' ∷ b'<' ∷ b't' ∷ b'h' ∷ []

abbrev pieces : List Text
pieces =
    (b'i' ∷ b'n' ∷ b'k' ∷ b'>' ∷ b'b' ∷ b'<' ∷ b'/' ∷ [])
    ∷ (b't' ∷ b'h' ∷ b'i' ∷ b'n' ∷ b'k' ∷ b'>' ∷ b'c' ∷ b'<' ∷ [])
    ∷ []

start : Transformer
unfolding new_transformer
start = new_transformer reasoning

fed : (feed start (first_piece ∷ pieces)).0 ≡ (b'a' ∷ b'c' ∷ [], b'b' ∷ [])
unfolding start new_transformer parse_content_source
fed = refl

feed-concat_example :
    feed start (first_piece ∷ pieces) ≡ parse_content_source start (concat (first_piece ∷ pieces))
feed-concat_example = feed-concat start first_piece pieces

parse-Pieces_example : Pieces content first_piece (parse content first_piece)
parse-Pieces_example = parse-Pieces content first_piece

-- A delta with reasoning "b", and one with content "c".
abbrev thought : Fields
thought = ("reasoning_content", text (b'b' ∷ [])) ∷ []

abbrev said : Fields
said = ("content", text (b'c' ∷ [])) ∷ []

-- The matches of `(?s)<think>(.*?)</think>`, from the left.
abbrev next_blocks : Text → Option (Text × Text) → (Text → Blocks) → Text → Blocks
next_blocks before none more s = ([], s)
next_blocks before (some (piece, after)) more s =
    let later = more after in ((before, piece) ∷ later.0, later.1)

unfoldable block_at : Option (Text × Text) → (Text → Blocks) → Text → Blocks
unfolding split_once
block_at none more s = ([], s)
block_at (some (before, rest)) more s = next_blocks before (split_once close_tag rest) more s

unfoldable blocks_from : ℕ → Text → Blocks
unfolding split_once block_at
blocks_from zero s = ([], s)
blocks_from (suc fuel) s = block_at (split_once open_tag s) (blocks_from fuel) s

unfoldable blocks_in : Text → Blocks
unfolding blocks_from
blocks_in s = blocks_from (length s) s

-- "<think>b</think>c", and "c" with the reasoning "b".
abbrev tagged_message : Fields
tagged_message = ("content", text (open_tag ++ (b'b' ∷ close_tag ++ b'c' ∷ []))) ∷ []

abbrev thought_message : Fields
thought_message = ("content", text (b'c' ∷ [])) ∷ ("reasoning", text (b'b' ∷ [])) ∷ []

tagged_moves :
    lookup "reasoning" (transform_message blocks_in reasoning tagged_message)
    ≡ some (text (b'b' ∷ []))
unfolding transform_message lookup insert remove blocks_in split_once joined without_blocks
tagged_moves = refl

transform_message-tag_field_example :
    let r =
      transform_message blocks_in reasoning
        (transform_message blocks_in think_tag thought_message) in
    (lookup "reasoning" r ≡ some (text (b'b' ∷ [])))
    × (lookup "reasoning_content" r ≡ none)
    × (lookup "content" r ≡ some (text (b'c' ∷ [])))
unfolding source_reasoning answer_of content_parts classify_content field_reasoning lookup blocks_in
    split_once joined without_blocks
transform_message-tag_field_example =
    transform_message-tag_field blocks_in reasoning thought_message b'b' [] (b'c' ∷ []) to_reasoning
      refl refl refl
