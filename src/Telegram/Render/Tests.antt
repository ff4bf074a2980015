-- ===== src/Telegram/Render/Tests.antt =====
-- chic/telegram/render.py: a text at the limit.
use chic_mcp.Prelude.{replicate}
use chic_mcp.Telegram.Render.{source_chunks}
use chic_mcp.Telegram.Render.Split.{IsSplit, source_chunks-IsSplit}

source_chunks-IsSplit_example : IsSplit (source_chunks (replicate 3501 97)) (replicate 3501 97)
source_chunks-IsSplit_example = source_chunks-IsSplit (replicate 3501 97)
