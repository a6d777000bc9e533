-- ===== src/McpServer/Examples/Prompts.antt =====
-- The prompts on a repository without an owner.
use buildpulse_mcp.Common.{◌≡◌, ◌==◌, refl, Text, codes, Map, get, put, All, [], err}
use buildpulse_mcp.McpServer.Prompts.{argument, whats_red, prompts}
use buildpulse_mcp.McpServer.Prompts.Answers.{Answers, prompts_answer}

abbrev some_args : Map Text
some_args = put (put [] (codes "repository") (codes "r")) (codes "name") (codes "r")

no_owner : whats_red some_args ≡ err (codes "owner and name are required")
unfolding whats_red argument get put ◌==◌
no_owner = refl

prompts_answer_example : All (Answers some_args) prompts
prompts_answer_example = prompts_answer some_args
